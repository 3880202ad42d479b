-- ===== src/Screen/Printed.antt =====
-- Printing on the console, as it is seen: what each character draws turns the picture of the text into
-- the picture of the text with that character.
use mikanos_m1mac.Base.{
  ℕ, zero, suc, ◌+◌, ◌-◌, ◌*◌, ◌/◌, ◌%◌, ◌≤◌, ◌<◌, ◌≡◌, ◌≢◌, refl, sym, ap, ap₂, ◌∙◌, ltb, leb,
  ◌==◌, ◌&&◌, min, if◌then◌else◌, true, false, Bool-cases, none, some, List, [], ◌∷◌, ◌++◌,
  get_elem?, length, inl, inr, arith, ℕ_discrete,
}
use mikanos_m1mac.Screen.{PixelColor}
use mikanos_m1mac.Screen.Paint.{paint, paint-append}
use mikanos_m1mac.Screen.Ink.{ink, paint-write_ascii}
use mikanos_m1mac.Screen.Console.{Console, rows, columns, newline, put_char, put_string, new}
use mikanos_m1mac.Screen.Lines.{
  Text, empty_text, add_char, add_string, line_at-bottom, line_at-above, Shows, new-Shows,
  blank_line, put_string-Shows, put_char-Shows,
}
use mikanos_m1mac.Screen.Seen.{newline-seen}
use mikanos_m1mac.Screen.Display.{HasNoNull, IsText, line_color, text_color}

get_elem?-append_last :
    (xs : List ℕ) (x k : ℕ)
    → get_elem? (xs ++ x ∷ []) k ≡ (if k == length xs then some x else get_elem? xs k)
get_elem?-append_last [] x zero = refl
get_elem?-append_last [] x (suc k) = ground arith
get_elem?-append_last (y ∷ xs) x zero = ground arith
get_elem?-append_last (y ∷ xs) x (suc k) = ground (arith, get_elem?-append_last xs x k)

get_elem?-length : (xs : List ℕ) → get_elem? xs (length xs) ≡ none
get_elem?-length [] = refl
get_elem?-length (x ∷ xs) = get_elem?-length xs

HasNoNull-append_last :
    (line : List ℕ) (ch : ℕ) → HasNoNull line → ch ≢ 0 → HasNoNull (line ++ ch ∷ [])
HasNoNull-append_last [] ch h hc = (hc, tt)
HasNoNull-append_last (x ∷ line) ch (h, hs) hc = (h, HasNoNull-append_last line ch hs hc)

add_char-IsText : (ch : ℕ) (t : Text) → ch ≢ 0 → IsText t → IsText (add_char ch t)
add_char-IsText ch t h v = elim (Bool-cases (ch == 10)) [
  | inl line ↦ rw line (record { current = tt; older = (v.current, v.older) })
  | inr other ↦
      rw other
        (record { current = HasNoNull-append_last t.current ch v.current h; older = v.older })
]

module _ (font_data : List ℕ) where
  module _ (px py : ℕ) (px_in : px < 8 * columns) (py_in : py < 16 * rows) where
    -- A character behind the end of a line, which has the background's colour there.
    written_line :
        (ch : ℕ) (line : List ℕ) (r : ℕ) (fg_color bg_color : PixelColor)
        → py / 16 ≡ r
        → length line < columns - 1
        → (if leb (8 * length line) px
              && ltb px (8 * length line + 8)
              && leb (16 * r) py
              && ltb py (16 * r + 16)
              && ink font_data ch (py - 16 * r) (px - 8 * length line)
            then fg_color
            else line_color font_data line fg_color bg_color px py)
          ≡ line_color font_data (line ++ ch ∷ []) fg_color bg_color px py
    written_line ch line r fg_color bg_color e room =
        let a : leb (16 * r) py ≡ true = ground arith in
        let b : ltb py (16 * r + 16) ≡ true = ground arith in
        let m : py - 16 * r ≡ py % 16 = omega arith in
        rw (get_elem?-append_last line ch (px / 8), a, b, m)
          (elim (Bool-cases (px / 8 == length line)) [
            | inl at_end ↦
                let k : px / 8 ≡ length line = ground arith in
                let n : px - 8 * length line ≡ px % 8 = omega arith in
                rw (at_end, k, n, get_elem?-length line) (ground arith)
            | inr elsewhere ↦ rw elsewhere (ground arith)
          ])

    -- A line that is full stays as it is seen.
    full_line :
        (ch : ℕ) (line : List ℕ) (fg_color bg_color : PixelColor)
        → columns - 1 ≤ length line
        → line_color font_data line fg_color bg_color px py
          ≡ line_color font_data (line ++ ch ∷ []) fg_color bg_color px py
    full_line ch line fg_color bg_color full =
        rw (get_elem?-append_last line ch (px / 8)) (elim (Bool-cases (px / 8 == length line)) [
          | inl at_end ↦
              let behind : ltb (px / 8) (columns - 1) ≡ false = ground arith in
              rw (at_end, behind) refl
          | inr elsewhere ↦ rw elsewhere refl
        ])

    written_seen :
        (ch : ℕ) (t : Text) (col r : ℕ) (fg_color bg_color : PixelColor)
        → col ≡ length t.current
        → col < columns - 1
        → (if leb (8 * col) px
              && ltb px (8 * col + 8)
              && leb (16 * r) py
              && ltb py (16 * r + 16)
              && ink font_data ch (py - 16 * r) (px - 8 * col)
            then fg_color
            else text_color font_data t r fg_color bg_color px py)
          ≡ text_color font_data
              (record t { current = t.current ++ ch ∷ [] })
              r
              fg_color
              bg_color
              px
              py
    written_seen ch t col r fg_color bg_color e room = elim (ℕ_discrete r (py / 16)) [
      | yes here ↦
          rw
            (
              ← here,
              line_at-bottom t r,
              line_at-bottom (record t { current = t.current ++ ch ∷ [] }) r,
              e,
            )
            (written_line ch t.current r fg_color bg_color (sym here) (omega (arith, e)))
      | no elsewhere ↦
          rw (line_at-above t.current (t.current ++ ch ∷ []) t.older r (py / 16) elsewhere)
            (ground arith)
    ]

    full_seen :
        (ch : ℕ) (t : Text) (r : ℕ) (fg_color bg_color : PixelColor)
        → columns - 1 ≤ length t.current
        → text_color font_data t r fg_color bg_color px py
          ≡ text_color font_data
              (record t { current = t.current ++ ch ∷ [] })
              r
              fg_color
              bg_color
              px
              py
    full_seen ch t r fg_color bg_color full = elim (ℕ_discrete r (py / 16)) [
      | yes here ↦
          rw
            (
              ← here,
              line_at-bottom t r,
              line_at-bottom (record t { current = t.current ++ ch ∷ [] }) r,
            )
            (full_line ch t.current fg_color bg_color full)
      | no elsewhere ↦
          ap (λ line. line_color font_data line fg_color bg_color px py)
            (line_at-above t.current (t.current ++ ch ∷ []) t.older r (py / 16) elsewhere)
    ]

    put_char-seen :
        (ch : ℕ) (t : Text) (c : Console)
        → Shows t c
        → IsText t
        → paint
            (put_char font_data ch c).0
            px
            py
            (text_color font_data t c.cursor_row c.fg_color c.bg_color px py)
          ≡ text_color font_data
              (add_char ch t)
              (put_char font_data ch c).1.cursor_row
              c.fg_color
              c.bg_color
              px
              py
    unfolding put_char
    put_char-seen ch t c v text = elim (Bool-cases (ch == 10)) [
      | inl line ↦ rw line (newline-seen font_data px py px_in py_in t c v text)
      | inr other ↦ elim (Bool-cases (ltb c.cursor_column (columns - 1))) [
        | inl room ↦
            let column : c.cursor_column ≡ length t.current = ground (arith, v.column) in
            rw (other, room)
              (paint-write_ascii px py (omega arith) (omega arith) font_data (8 * c.cursor_column)
                  (16 * c.cursor_row) ch c.fg_color _ (ground arith) (omega (arith, v.bottom))
                ∙ written_seen ch t c.cursor_column c.cursor_row c.fg_color c.bg_color column
                    (ground arith))
        | inr full ↦
            rw (other, full)
              (full_seen ch t c.cursor_row c.fg_color c.bg_color (ground (arith, v.column)))
      ]
    ]

    put_char-colors :
        (ch : ℕ) (c : Console)
        → ((put_char font_data ch c).1.fg_color ≡ c.fg_color)
          × ((put_char font_data ch c).1.bg_color ≡ c.bg_color)
    unfolding put_char newline
    put_char-colors ch c = ground arith

    -- Printing keeps the screen and the text together, from any state in which they agree.
    put_string-seen :
        (s : List ℕ) (t : Text) (c : Console)
        → Shows t c
        → IsText t
        → HasNoNull s
        → paint
            (put_string font_data s c).0
            px
            py
            (text_color font_data t c.cursor_row c.fg_color c.bg_color px py)
          ≡ text_color font_data
              (add_string s t)
              (put_string font_data s c).1.cursor_row
              c.fg_color
              c.bg_color
              px
              py
    unfolding put_string
    put_string-seen [] t c v text h = refl
    put_string-seen (ch ∷ s) t c v text (h, hs) =
        let c' = (put_char font_data ch c).1 in
        let t' = add_char ch t in
        let (fg, bg) = put_char-colors ch c in
        paint-append px py (omega arith) (omega arith) (put_char font_data ch c).0
          (put_string font_data s c').0 _
        ∙ ap (paint (put_string font_data s c').0 px py) (
            put_char-seen ch t c v text
            ∙ ap₂ (λ f b. text_color font_data t' c'.cursor_row f b px py) (sym fg) (sym bg))
        ∙ put_string-seen s t' c' (put_char-Shows font_data ch t c v) (add_char-IsText ch t h text)
            hs
        ∙ ap₂
            (λ f b.
              text_color font_data (add_string s t') (put_string font_data s c').1.cursor_row f b px
                py)
            fg bg

    blank :
        (fg_color bg_color : PixelColor)
        → text_color font_data empty_text 0 fg_color bg_color px py ≡ bg_color
    blank fg_color bg_color = rw (blank_line (py / 16)) (ground arith)

    -- On a screen that has the background's colour, printing on a new console shows the text's last 25
    -- lines, each cut to 79 characters: every place of the console's 640 by 400 has the foreground's
    -- colour where the font has ink for the character there, and else the background's.
    pub put_string-Displayed :
        (s : List ℕ) (fg_color bg_color : PixelColor)
        → HasNoNull s
        → paint (put_string font_data s (new fg_color bg_color)).0 px py bg_color
          ≡ text_color font_data
              (add_string s empty_text)
              (min (length (add_string s empty_text).older) (rows - 1))
              fg_color
              bg_color
              px
              py
    put_string-Displayed s fg_color bg_color h =
        ap (paint (put_string font_data s (new fg_color bg_color)).0 px py)
          (sym (blank fg_color bg_color))
        ∙ put_string-seen s empty_text (new fg_color bg_color) (new-Shows fg_color bg_color)
            (record { current = tt; older = tt }) h
        ∙ ap (λ r. text_color font_data (add_string s empty_text) r fg_color bg_color px py)
            (put_string-Shows font_data s empty_text (new fg_color bg_color)
              (new-Shows fg_color bg_color)).bottom
