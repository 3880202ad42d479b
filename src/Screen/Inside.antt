-- ===== src/Screen/Inside.antt =====
-- The console draws in its own part of the screen only.
use mikanos_m1mac.Base.{
  ℕ, zero, suc, ◌+◌, ◌-◌, ◌*◌, ◌^◌, ◌≤◌, ◌<◌, ◌≡◌, refl, ap, ◌∙◌, ltb, ◌==◌, if◌then◌else◌, Bool,
  true, false, Bool-cases, Option, none, some, List, [], ◌∷◌, ◌++◌, get_or, length, inl, inr, All,
  arith,
}
use mikanos_m1mac.Screen.{
  PixelColor, Pixel, loop, pixel, get_font, is_set, write_ascii, write_string,
}
use mikanos_m1mac.Screen.Console.{
  Console, rows, columns, clear, draw_rows, shift_rows, newline, put_char, put_string,
}
use mikanos_m1mac.Screen.Laws.{IsConsole, shift_rows_inside, put_char-IsConsole}

All-append {ℓ κ} :
    {A : Type ℓ} (P : A → Type κ) (xs ys : List A) → All P xs → All P ys → All P (xs ++ ys)
All-append P [] ys h k = k
All-append P (x ∷ xs) ys (h, hs) k = (h, All-append P xs ys hs k)

All-loop {ℓ κ} :
    {A : Type ℓ} (P : A → Type κ) (body : ℕ → List A) (from n : ℕ)
    → ((i : ℕ) → i < from + n → All P (body i))
    → All P (loop from n body)
All-loop P body from zero h = tt
All-loop P body from (suc n) h =
    All-append P (body from) (loop (from + 1) n body) (h from (omega arith))
      (All-loop P body (from + 1) n (λ i lt. h i (omega arith)))

-- In front of a column and above a line.
abbrev pub IsWithin : ℕ → ℕ → Pixel → Type 0
IsWithin width height p = (p.x < width) × (p.y < height)

module _ (font_data : List ℕ) (width height : ℕ) (w : width ≤ 2 ^ 16) (v : height ≤ 2 ^ 16) where
  dot-IsWithin :
      (b : Bool) (x y : ℕ) (color : PixelColor)
      → x < width
      → y < height
      → All (IsWithin width height) (if b then pixel x y color ∷ [] else [])
  dot-IsWithin true x y color hx hy = omega arith
  dot-IsWithin false x y color hx hy = tt

  glyph-IsWithin :
      (o : Option ℕ) (x y : ℕ) (color : PixelColor)
      → x + 8 ≤ width
      → y + 16 ≤ height
      → All (IsWithin width height) (elim o [
        | none ↦ []
        | some font ↦ loop 0 16 (λ dy.
            loop 0 8 (λ dx.
              if is_set font_data font dy dx then pixel (x + dx) (y + dy) color ∷ [] else []))
      ])
  glyph-IsWithin none x y color hx hy = tt
  glyph-IsWithin (some font) x y color hx hy =
      All-loop _
        (λ dy.
          loop 0 8
            (λ dx. if is_set font_data font dy dx then pixel (x + dx) (y + dy) color ∷ [] else []))
        0 16
        (λ dy lt.
          All-loop _
            (λ dx. if is_set font_data font dy dx then pixel (x + dx) (y + dy) color ∷ [] else []) 0
            8
            (λ dx lt'.
              dot-IsWithin (is_set font_data font dy dx) (x + dx) (y + dy) color (omega arith)
                (omega arith)))

  write_ascii-IsWithin :
      (x y ch : ℕ) (color : PixelColor)
      → x + 8 ≤ width
      → y + 16 ≤ height
      → All (IsWithin width height) (write_ascii font_data x y ch color)
  unfolding write_ascii
  write_ascii-IsWithin x y ch color = glyph-IsWithin (get_font font_data ch) x y color

  -- A string that ends after `n` characters.
  write_string-IsWithin :
      (n x y : ℕ) (s : List ℕ) (color : PixelColor)
      → get_or s n 0 ≡ 0
      → x + 8 * n ≤ width
      → y + 16 ≤ height
      → All (IsWithin width height) (write_string font_data x y s color)
  unfolding write_string
  write_string-IsWithin n x y [] color ended hx hy = tt
  write_string-IsWithin zero x y (ch ∷ s) color ended hx hy =
      let null : ch == 0 ≡ true = ground arith in rw null tt
  write_string-IsWithin (suc n) x y (ch ∷ s) color ended hx hy = elim (Bool-cases (ch == 0)) [
    | inl null ↦ rw null tt
    | inr other ↦ rw other (
        All-append _ (write_ascii font_data x y ch color) _
          (write_ascii-IsWithin x y ch color (omega arith) hy)
          (write_string-IsWithin n (x + 8) y s color ended (omega arith) hy))
  ]

abbrev pub IsInConsole : Pixel → Type 0
IsInConsole = IsWithin (8 * columns) (16 * rows)

clear-IsInConsole : (color : PixelColor) → All IsInConsole (clear color)
unfolding clear
clear-IsInConsole color =
    All-loop IsInConsole (λ y. loop 0 (8 * columns) (λ x. pixel x y color ∷ [])) 0 (16 * rows)
      (λ y y_in.
        All-loop IsInConsole (λ x. pixel x y color ∷ []) 0 (8 * columns) (λ x x_in. omega arith))

-- In range the default does not matter.
get_or-default : (xs : List ℕ) (i d d' : ℕ) → i < length xs → get_or xs i d ≡ get_or xs i d'
get_or-default [] i d d' h = absurd (omega arith)
get_or-default (x ∷ xs) zero d d' h = refl
get_or-default (x ∷ xs) (suc i) d d' h = get_or-default xs i d d' (omega arith)

moved_row-ended :
    (c : Console) (i : ℕ)
    → IsConsole c
    → i < rows - 1
    → get_or (get_or (shift_rows 0 (rows - 1) c.buffer) i []) (columns - 1) 0 ≡ 0
moved_row-ended c i v h =
    let row = v.each_row (i + 1) (omega arith) in
    ap (λ r. get_or r (columns - 1) 0)
      (shift_rows_inside 0 (rows - 1) i c.buffer (omega arith) (omega arith)
        (omega (arith, v.all_rows)))
    ∙ get_or-default (get_or c.buffer (i + 1) []) (columns - 1) 0 1 (omega (arith, row.size))
    ∙ row.ended

module _ (font_data : List ℕ) where
  draw_rows-IsInConsole :
      (buffer : List (List ℕ)) (color : PixelColor)
      → ((i : ℕ) → i < rows - 1 → get_or (get_or buffer i []) (columns - 1) 0 ≡ 0)
      → All IsInConsole (draw_rows font_data buffer color)
  unfolding draw_rows
  draw_rows-IsInConsole buffer color ended =
      All-loop IsInConsole (λ row. write_string font_data 0 (16 * row) (get_or buffer row []) color)
        0 (rows - 1)
        (λ row row_in.
          write_string-IsWithin font_data (8 * columns) (16 * rows) (omega arith) (omega arith)
            (columns - 1) 0 (16 * row) (get_or buffer row []) color (ended row (omega arith))
            (omega arith) (omega arith))

  newline-IsInConsole : (c : Console) → IsConsole c → All IsInConsole (newline font_data c).0
  unfolding newline
  newline-IsInConsole c v = elim (Bool-cases (ltb c.cursor_row (rows - 1))) [
    | inl inner ↦ rw inner tt
    | inr last ↦ rw last (
        All-append IsInConsole (clear c.bg_color)
          (draw_rows font_data (shift_rows 0 (rows - 1) c.buffer) c.fg_color)
          (clear-IsInConsole c.bg_color)
          (draw_rows-IsInConsole (shift_rows 0 (rows - 1) c.buffer) c.fg_color
            (λ i h. moved_row-ended c i v h)))
  ]

  put_char-IsInConsole :
      (ch : ℕ) (c : Console) → IsConsole c → All IsInConsole (put_char font_data ch c).0
  unfolding put_char
  put_char-IsInConsole ch c v = elim (Bool-cases (ch == 10)) [
    | inl line ↦ rw line (newline-IsInConsole c v)
    | inr other ↦ elim (Bool-cases (ltb c.cursor_column (columns - 1))) [
      | inl room ↦
          rw (other, room)
            (write_ascii-IsWithin font_data (8 * columns) (16 * rows) (omega arith) (omega arith)
              (8 * c.cursor_column) (16 * c.cursor_row) ch c.fg_color (ground arith)
              (omega (arith, v.row_in_range)))
      | inr full ↦ rw (other, full) tt
    ]
  ]

  -- Whatever is printed on a well-formed console, all that is drawn lies in its 640 by 400 pixels at
  -- the corner of the screen.
  pub put_string-IsInConsole :
      (s : List ℕ) (c : Console) → IsConsole c → All IsInConsole (put_string font_data s c).0
  unfolding put_string
  put_string-IsInConsole [] c v = tt
  put_string-IsInConsole (ch ∷ s) c v =
      All-append IsInConsole (put_char font_data ch c).0
        (put_string font_data s (put_char font_data ch c).1).0 (put_char-IsInConsole ch c v)
        (put_string-IsInConsole s (put_char font_data ch c).1 (put_char-IsConsole font_data ch c v))
