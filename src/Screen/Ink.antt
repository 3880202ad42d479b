-- ===== src/Screen/Ink.antt =====
-- Where characters and strings have ink, as `WriteAscii` and `WriteString` draw them.
use mikanos_m1mac.Base.{
  ℕ, zero, suc, ◌+◌, ◌-◌, ◌*◌, ◌/◌, ◌%◌, ◌^◌, ◌≤◌, ◌<◌, ◌≡◌, refl, ap, ◌∙◌, ltb, leb, ◌==◌, ◌&&◌,
  not, if◌then◌else◌, Bool, true, false, Bool-cases, Option, none, some, List, [], ◌∷◌, length, inl,
  inr, arith,
}
use mikanos_m1mac.Screen.{PixelColor, loop, pixel, get_font, is_set, write_ascii, write_string}
use mikanos_m1mac.Screen.Paint.{paint, paint-append, glyph}

module _ (font_data : List ℕ) where
  -- The character has ink at that place of its 8 by 16 cell.
  abbrev pub ink : ℕ → ℕ → ℕ → Bool
  ink ch dy dx = elim (get_font font_data ch) [
    | none ↦ false
    | some font ↦ is_set font_data font dy dx
  ]

  -- The string has ink at that place: of its character `k`, when no null stands before it.
  abbrev pub string_ink : List ℕ → ℕ → ℕ → ℕ → Bool
  string_ink [] k dy dx = false
  string_ink (ch ∷ s) zero dy dx = not (ch == 0) && ink ch dy dx
  string_ink (ch ∷ s) (suc k) dy dx = not (ch == 0) && string_ink s k dy dx

  string_ink-cons :
      (ch : ℕ) (s : List ℕ) (k dy dx : ℕ)
      → string_ink (ch ∷ s) k dy dx
        ≡ (not (ch == 0) && (if k == 0 then ink ch dy dx else string_ink s (k - 1) dy dx))
  string_ink-cons ch s zero dy dx = refl
  string_ink-cons ch s (suc k) dy dx =
      let e : suc k - 1 ≡ k = omega arith in
      let n : suc k == 0 ≡ false = ground arith in rw (e, n) refl

module _ (px py : ℕ) (px_small : px < 2 ^ 16) (py_small : py < 2 ^ 16) where
  module _ (font_data : List ℕ) where
    pub paint-write_ascii :
        (x y ch : ℕ) (color c : PixelColor)
        → x ≤ 2 ^ 16
        → y ≤ 2 ^ 16
        → paint (write_ascii font_data x y ch color) px py c ≡ (
            if leb x px
              && ltb px (x + 8)
              && leb y py
              && ltb py (y + 16)
              && ink font_data ch (py - y) (px - x)
            then color
            else c)
    unfolding write_ascii
    paint-write_ascii x y ch color c low low' = drawn (get_font font_data ch)
      where
        drawn :
            (o : Option ℕ)
            → paint
                (elim o [
                  | none ↦ []
                  | some font ↦ loop 0 16 (λ dy. loop 0 8 (λ dx.
                      if is_set font_data font dy dx
                      then pixel (x + dx) (y + dy) color ∷ []
                      else []))
                ])
                px
                py
                c
              ≡ (if leb x px
                    && ltb px (x + 8)
                    && leb y py
                    && ltb py (y + 16)
                    && elim o [ none ↦ false | some font ↦ is_set font_data font (py - y) (px - x) ]
                  then color
                  else c)
        drawn none = ground arith
        drawn (some font) =
            glyph px py px_small py_small (is_set font_data font) x y color c low low'

    -- The rest of the string begins eight places to the right.
    after_first :
        (x y ch : ℕ) (s : List ℕ) (color c : PixelColor)
        → ch == 0 ≡ false
        → (if leb (x + 8) px
              && leb y py
              && ltb py (y + 16)
              && string_ink font_data s ((px - (x + 8)) / 8) (py - y) ((px - (x + 8)) % 8)
            then color
            else (if leb x px
                  && ltb px (x + 8)
                  && leb y py
                  && ltb py (y + 16)
                  && ink font_data ch (py - y) (px - x)
                then color
                else c))
          ≡ (if leb x px
                && leb y py
                && ltb py (y + 16)
                && string_ink font_data (ch ∷ s) ((px - x) / 8) (py - y) ((px - x) % 8)
              then color
              else c)
    after_first x y ch s color c other = elim (Bool-cases (leb (x + 8) px)) [
      | inl later ↦
          let k : (px - (x + 8)) / 8 ≡ (px - x) / 8 - 1 = ground arith in
          let m : (px - (x + 8)) % 8 ≡ (px - x) % 8 = ground arith in
          let n : (px - x) / 8 == 0 ≡ false = ground arith in
          let a : leb x px ≡ true = ground arith in
          let b : ltb px (x + 8) ≡ false = ground arith in
          rw
            (
              string_ink-cons font_data ch s ((px - x) / 8) (py - y) ((px - x) % 8),
              later,
              k,
              m,
              n,
              a,
              b,
              other,
            )
            (ground arith)
      | inr here ↦ elim (Bool-cases (leb x px)) [
        | inl inside ↦
            let n : (px - x) / 8 ≡ 0 = ground arith in
            let m : (px - x) % 8 ≡ px - x = ground arith in
            let b : ltb px (x + 8) ≡ true = ground arith in rw (n, m, here, inside, b, other) refl
        | inr before ↦ rw (here, before) refl
      ]
    ]

    pub paint-write_string :
        (x y : ℕ) (s : List ℕ) (color c : PixelColor)
        → x + 8 * length s ≤ 2 ^ 16
        → y ≤ 2 ^ 16
        → paint (write_string font_data x y s color) px py c ≡ (
            if leb x px
              && leb y py
              && ltb py (y + 16)
              && string_ink font_data s ((px - x) / 8) (py - y) ((px - x) % 8)
            then color
            else c)
    unfolding write_string
    paint-write_string x y [] color c low low' = ground arith
    paint-write_string x y (ch ∷ s) color c low low' = elim (Bool-cases (ch == 0)) [
      | inl null ↦
          rw (string_ink-cons font_data ch s ((px - x) / 8) (py - y) ((px - x) % 8), null)
            (ground arith)
      | inr other ↦ rw other (
          paint-append px py px_small py_small (write_ascii font_data x y ch color)
            (write_string font_data (x + 8) y s color) c
          ∙ (paint-write_string (x + 8) y s color _ (omega arith) low'
              ∙ ap
                  (λ d.
                    if leb (x + 8) px
                      && leb y py
                      && ltb py (y + 16)
                      && string_ink font_data s ((px - (x + 8)) / 8) (py - y) ((px - (x + 8)) % 8)
                    then color
                    else d)
                  (paint-write_ascii x y ch color c (omega arith) low')
              ∙ after_first x y ch s color c other))
    ]
