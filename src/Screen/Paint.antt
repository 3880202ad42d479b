-- ===== src/Screen/Paint.antt =====
-- What is seen at one place of the screen after a list of writes.
use mikanos_m1mac.Base.{
  ℕ, zero, suc, ◌+◌, ◌-◌, ◌^◌, ◌≤◌, ◌<◌, ◌≡◌, refl, ap, ◌∙◌, ltb, leb, ◌==◌, ◌&&◌, if◌then◌else◌,
  Bool, Bool-cases, List, [], ◌∷◌, ◌++◌, u32, inl, inr, arith,
}
use mikanos_m1mac.Screen.{PixelColor, Pixel, loop, pixel}
use mikanos_m1mac.Screen.Console.{clear}

-- The colour at a place after the writes, when it was `c` before: the last write there counts.
abbrev pub paint : List Pixel → ℕ → ℕ → PixelColor → PixelColor
paint [] px py c = c
paint (p ∷ ps) px py c = paint ps px py (if p.x == px && p.y == py then p.color else c)

module _ (px py : ℕ) (px_small : px < 2 ^ 16) (py_small : py < 2 ^ 16) where
  pub paint-append :
      (ps qs : List Pixel) (c : PixelColor)
      → paint (ps ++ qs) px py c ≡ paint qs px py (paint ps px py c)
  paint-append [] qs c = refl
  paint-append (p ∷ ps) qs c = paint-append ps qs (if p.x == px && p.y == py then p.color else c)

  -- A loop of which only the round `k` writes to the place.
  pub paint-loop :
      (body : ℕ → List Pixel) (k : ℕ) (f : PixelColor → PixelColor) (from n : ℕ) (c : PixelColor)
      → ((i : ℕ) (c' : PixelColor)
          → i < from + n
          → paint (body i) px py c' ≡ (if i == k then f c' else c'))
      → paint (loop from n body) px py c ≡ (if leb from k && ltb k (from + n) then f c else c)
  paint-loop body k f from zero c h = ground arith
  paint-loop body k f from (suc n) c h =
      paint-append (body from) (loop (from + 1) n body) c
      ∙ ap (paint (loop (from + 1) n body) px py) (h from c (omega arith))
      ∙ paint-loop body k f (from + 1) n (if from == k then f c else c)
          (λ i c' lt. h i c' (omega arith))
      ∙ ground arith

  -- One dot of a glyph's row.
  dot :
      (bits : ℕ → Bool) (x y dx : ℕ) (color c : PixelColor)
      → x ≤ 2 ^ 16
      → dx < 8
      → paint (if bits dx then pixel (x + dx) y color ∷ [] else []) px py c ≡ (
          if dx == px - x
          then (if leb x px && u32 y == py && bits (px - x) then color else c)
          else c)
  dot bits x y dx color c low lt = elim (Bool-cases (dx == px - x)) [
    | inl e ↦
        let same : dx ≡ px - x = ground arith in
        rw (e, same)
          (elim (Bool-cases (bits (px - x))) [
            | inl set ↦ rw set (ground arith)
            | inr clear ↦ rw clear (ground arith)
          ])
    | inr ne ↦ elim (Bool-cases (bits dx)) [
      | inl set ↦ rw (ne, set) (ground arith)
      | inr clear ↦ rw (ne, clear) refl
    ]
  ]

  glyph_row :
      (bits : ℕ → Bool) (x y : ℕ) (color c : PixelColor)
      → x ≤ 2 ^ 16
      → paint (loop 0 8 (λ dx. if bits dx then pixel (x + dx) y color ∷ [] else [])) px py c
        ≡ (if leb x px && ltb px (x + 8) && u32 y == py && bits (px - x) then color else c)
  glyph_row bits x y color c low =
      paint-loop (λ dx. if bits dx then pixel (x + dx) y color ∷ [] else []) (px - x)
        (λ c'. if leb x px && u32 y == py && bits (px - x) then color else c') 0 8 c
        (λ i c' lt. dot bits x y i color c' low (omega arith))
      ∙ ground arith

  on_row :
      (bits : ℕ → Bool) (y i : ℕ)
      → y ≤ 2 ^ 16
      → i < 16
      → (u32 (y + i) == py && bits i) ≡ (i == py - y && leb y py && bits (py - y))
  on_row bits y i low lt = elim (Bool-cases (i == py - y)) [
    | inl e ↦ let same : i ≡ py - y = ground arith in rw same (ground arith)
    | inr ne ↦ rw ne (ground arith)
  ]

  pub glyph :
      (bits : ℕ → ℕ → Bool) (x y : ℕ) (color c : PixelColor)
      → x ≤ 2 ^ 16
      → y ≤ 2 ^ 16
      → paint
          (loop 0 16
            (λ dy. loop 0 8 (λ dx. if bits dy dx then pixel (x + dx) (y + dy) color ∷ [] else [])))
          px
          py
          c
        ≡ (if leb x px && ltb px (x + 8) && leb y py && ltb py (y + 16) && bits (py - y) (px - x)
            then color
            else c)
  glyph bits x y color c low low' =
      paint-loop
        (λ dy. loop 0 8 (λ dx. if bits dy dx then pixel (x + dx) (y + dy) color ∷ [] else []))
        (py - y)
        (λ c'.
          if leb x px && ltb px (x + 8) && leb y py && bits (py - y) (px - x) then color else c')
        0 16 c
        (λ i c' lt.
          glyph_row (bits i) x (y + i) color c' low
          ∙ ground (arith, on_row (λ dy. bits dy (px - x)) y i low' (omega arith)))
      ∙ ground arith
