-- ===== src/Screen/Display.antt =====
-- The pixels of the console against the text: every place of the screen has the colour of the text there.
use mikanos_m1mac.Base.{
  ℕ, zero, suc, ◌+◌, ◌-◌, ◌*◌, ◌/◌, ◌%◌, ◌^◌, ◌≤◌, ◌<◌, ◌≡◌, ◌≢◌, refl, ◌∙◌, ltb, leb, ◌==◌, ◌&&◌,
  if◌then◌else◌, Bool, true, false, Bool-cases, Option, none, some, List, [], ◌∷◌, get_or,
  get_elem?, length, inl, inr, All, arith,
}
use mikanos_m1mac.Screen.{PixelColor, loop, pixel, write_string}
use mikanos_m1mac.Screen.Paint.{paint, paint-loop}
use mikanos_m1mac.Screen.Ink.{ink, string_ink, paint-write_string}
use mikanos_m1mac.Screen.Console.{rows, columns, clear, draw_rows}
use mikanos_m1mac.Screen.Lines.{Text, row_of, line_at}

-- The strings of C hold no null.
abbrev pub HasNoNull : List ℕ → Type 0
HasNoNull line = All (λ ch. ch ≢ 0) line

pub record IsText (t : Text) : Type 0 where
  pub current : HasNoNull t.current
  pub older : All HasNoNull t.older

All-get_or {ℓ κ} :
    {A : Type ℓ} (P : A → Type κ) (xs : List A) (i : ℕ) (d : A) → All P xs → P d → P (get_or xs i d)
All-get_or P [] i d h hd = hd
All-get_or P (x ∷ xs) zero d (h, hs) hd = h
All-get_or P (x ∷ xs) (suc i) d (h, hs) hd = All-get_or P xs i d hs hd

pub line_at-HasNoNull : (t : Text) (r i : ℕ) → IsText t → HasNoNull (line_at t r i)
line_at-HasNoNull t r i v = elim (Bool-cases (leb i r)) [
  | inl inside ↦
      rw inside (All-get_or HasNoNull (t.current ∷ t.older) (r - i) [] (v.current, v.older) tt)
  | inr below ↦ rw below tt
]

pub length-row_of : (w : ℕ) (line : List ℕ) → length (row_of w line) ≡ w + 2
length-row_of zero line = refl
length-row_of (suc w) [] = omega (arith, length-row_of w [])
length-row_of (suc w) (ch ∷ line) = omega (arith, length-row_of w line)

module _ (font_data : List ℕ) where
  abbrev pub cell_ink : Option ℕ → ℕ → ℕ → Bool
  cell_ink none dy dx = false
  cell_ink (some ch) dy dx = ink font_data ch dy dx

  -- The line has ink at that place of its character `k`.
  abbrev pub line_ink : List ℕ → ℕ → ℕ → ℕ → Bool
  line_ink line k dy dx = cell_ink (get_elem? line k) dy dx

  -- What a row shows is the part of the line that it has room for.
  pub row_ink :
      (w : ℕ) (line : List ℕ) (k dy dx : ℕ)
      → HasNoNull line
      → string_ink font_data (row_of w line) k dy dx ≡ (ltb k w && line_ink line k dy dx)
  row_ink zero line zero dy dx h = refl
  row_ink zero line (suc zero) dy dx h = ground arith
  row_ink zero line (suc (suc k)) dy dx h = ground arith
  row_ink (suc w) [] zero dy dx h = ground arith
  row_ink (suc w) [] (suc k) dy dx h = ground arith
  row_ink (suc w) (ch ∷ line) zero dy dx (h, hs) = ground arith
  row_ink (suc w) (ch ∷ line) (suc k) dy dx (h, hs) = ground (arith, row_ink w line k dy dx hs)

  -- The colour of a place in the row that shows a line.
  abbrev pub line_color : List ℕ → PixelColor → PixelColor → ℕ → ℕ → PixelColor
  line_color line fg_color bg_color px py =
      if ltb (px / 8) (columns - 1) && line_ink line (px / 8) (py % 16) (px % 8)
      then fg_color
      else bg_color

  -- The text's colour at a place, when its last line is in the row `bottom`.
  abbrev pub text_color : Text → ℕ → PixelColor → PixelColor → ℕ → ℕ → PixelColor
  text_color t bottom fg_color bg_color px py =
      line_color (line_at t bottom (py / 16)) fg_color bg_color px py

  module _ (px py : ℕ) (px_in : px < 8 * columns) (py_in : py < 16 * rows) where
    pub px_small : px < 2 ^ 16
    px_small = omega arith

    pub py_small : py < 2 ^ 16
    py_small = omega arith

    pub paint-clear : (color c : PixelColor) → paint (clear color) px py c ≡ color
    unfolding clear
    paint-clear color c =
        paint-loop px py px_small py_small (λ y. loop 0 (8 * columns) (λ x. pixel x y color ∷ []))
          py (λ _. color) 0 (16 * rows) c
          (λ y c' y_in.
            paint-loop px py px_small py_small (λ x. pixel x y color ∷ []) px
              (λ d. if y == py then color else d) 0 (8 * columns) c' (λ x d x_in. ground arith)
            ∙ ground arith)
        ∙ ground arith

    in_row :
        (buffer : List (List ℕ)) (row : ℕ) (color d : PixelColor)
        → (if leb 0 px
              && leb (16 * row) py
              && ltb py (16 * row + 16)
              && string_ink font_data
                  (get_or buffer row [])
                  ((px - 0) / 8)
                  (py - 16 * row)
                  ((px - 0) % 8)
            then color
            else d)
          ≡ (if row == py / 16
              then (if string_ink font_data (get_or buffer (py / 16) []) (px / 8) (py % 16) (px % 8)
                  then color
                  else d)
              else d)
    in_row buffer row color d = elim (Bool-cases (row == py / 16)) [
      | inl e ↦
          let same : row ≡ py / 16 = ground arith in
          let a : leb (16 * (py / 16)) py ≡ true = ground arith in
          let b : ltb py (16 * (py / 16) + 16) ≡ true = ground arith in
          let m : py - 16 * (py / 16) ≡ py % 16 = omega arith in
          let z : px - 0 ≡ px = omega arith in rw (e, same, a, b, m, z) (ground arith)
      | inr ne ↦ rw ne (ground arith)
    ]

    pub paint-draw_rows :
        (buffer : List (List ℕ)) (color c : PixelColor)
        → ((i : ℕ) → i < rows - 1 → length (get_or buffer i []) ≤ columns + 1)
        → paint (draw_rows font_data buffer color) px py c ≡ (
            if ltb (py / 16) (rows - 1)
              && string_ink font_data (get_or buffer (py / 16) []) (px / 8) (py % 16) (px % 8)
            then color
            else c)
    unfolding draw_rows
    paint-draw_rows buffer color c short =
        paint-loop px py px_small py_small
          (λ row. write_string font_data 0 (16 * row) (get_or buffer row []) color) (py / 16)
          (λ d.
            if string_ink font_data (get_or buffer (py / 16) []) (px / 8) (py % 16) (px % 8)
            then color
            else d)
          0 (rows - 1) c
          (λ row d row_in.
            paint-write_string px py px_small py_small font_data 0 (16 * row) (get_or buffer row [])
              color d (omega (arith, short row (omega arith))) (omega arith)
            ∙ in_row buffer row color d)
        ∙ ground arith
