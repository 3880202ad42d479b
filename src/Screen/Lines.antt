-- ===== src/Screen/Lines.antt =====
-- The console against the text that it was given: it shows the last lines, cut to the columns it has.
use mikanos_m1mac.Base.{
  ℕ, zero, suc, ◌+◌, ◌-◌, ◌≤◌, ◌<◌, ◌≡◌, ◌≢◌, refl, sym, ap, ◌∙◌, ltb, leb, ◌==◌, min,
  if◌then◌else◌, true, Bool-cases, List, [], ◌∷◌, ◌++◌, get_or, set, length, length-set,
  length-append, get_or-set_self, get_or-set_ne, get_or-replicate_in, inl, inr, arith, ℕ_discrete,
}
use mikanos_m1mac.Screen.{PixelColor}
use mikanos_m1mac.Screen.Laws.{length-shift_rows, scrolled_row}
use mikanos_m1mac.Screen.Console.{
  Console, rows, columns, blank_row, newline, put_char, put_string, new,
}

-- The text so far: its last line, and the lines before it, the latest first.
pub record Text : Type 0 where
  pub current : List ℕ
  pub older : List (List ℕ)

abbrev pub add_char : ℕ → Text → Text
add_char ch t =
    if ch == 10
    then record { current = []; older = t.current ∷ t.older }
    else record t { current = t.current ++ ch ∷ [] }

abbrev pub add_string : List ℕ → Text → Text
add_string [] t = t
add_string (ch ∷ s) t = add_string s (add_char ch t)

abbrev pub empty_text : Text
empty_text = record { current = []; older = [] }

-- The first `width` characters of a line, with null bytes up to two more than that.
abbrev pub row_of : ℕ → List ℕ → List ℕ
row_of zero line = 0 ∷ 0 ∷ []
row_of (suc width) [] = 0 ∷ row_of width []
row_of (suc width) (ch ∷ line) = ch ∷ row_of width line

-- What is in row `i` when the last line is in row `bottom`.
abbrev pub line_at : Text → ℕ → ℕ → List ℕ
line_at t bottom i = if leb i bottom then get_or (t.current ∷ t.older) (bottom - i) [] else []

-- The last line stands in its row, or, when there are too many, in the last one; the lines before it
-- stand above; the rows below it are blank.
pub record Shows (t : Text) (c : Console) : Type 0 where
  pub size : length c.buffer ≡ rows
  pub bottom : c.cursor_row ≡ min (length t.older) (rows - 1)
  pub column : c.cursor_column ≡ min (length t.current) (columns - 1)
  pub shown :
      (i : ℕ) → i < rows → get_or c.buffer i [] ≡ row_of (columns - 1) (line_at t c.cursor_row i)

set-row_of :
    (width ch : ℕ) (line : List ℕ)
    → length line < width
    → set (row_of width line) (length line) ch ≡ row_of width (line ++ ch ∷ [])
set-row_of zero ch line h = absurd (omega arith)
set-row_of (suc width) ch [] h = refl
set-row_of (suc width) ch (x ∷ line) h = ap (λ r. x ∷ r) (set-row_of width ch line (omega arith))

row_of-full :
    (width ch : ℕ) (line : List ℕ)
    → width ≤ length line
    → row_of width (line ++ ch ∷ []) ≡ row_of width line
row_of-full zero ch line h = refl
row_of-full (suc width) ch [] h = absurd (omega arith)
row_of-full (suc width) ch (x ∷ line) h = ap (λ r. x ∷ r) (row_of-full width ch line (omega arith))

pub blank_line : (i : ℕ) → line_at empty_text 0 i ≡ []
blank_line zero = refl
blank_line (suc i) = ground arith

pub new-Shows : (fg_color bg_color : PixelColor) → Shows empty_text (new fg_color bg_color)
new-Shows fg_color bg_color = record {
  size = refl;
  bottom = omega arith;
  column = omega arith;
  shown = λ i h.
      get_or-replicate_in rows i blank_row [] h ∙ ap (row_of (columns - 1)) (sym (blank_line i));
}

-- A line that is added pushes all others up by one.
pub line_at-next :
    (l : List ℕ) (ls : List (List ℕ)) (r i : ℕ)
    → line_at (record { current = []; older = l ∷ ls }) (r + 1) i
      ≡ line_at (record { current = l; older = ls }) r i
line_at-next l ls r i = elim (Bool-cases (leb i r)) [
  | inl inside ↦
      let inside' : leb i (r + 1) ≡ true = ground arith in
      let e : r + 1 - i ≡ suc (r - i) = ground arith in rw (inside, inside', e) refl
  | inr below ↦ elim (Bool-cases (leb i (r + 1))) [
    | inl last ↦ let e : r + 1 - i ≡ 0 = ground arith in rw (below, last, e) refl
    | inr outside ↦ rw (below, outside) refl
  ]
]

pub line_at-scrolled :
    (l : List ℕ) (ls : List (List ℕ)) (r i : ℕ)
    → i < r
    → line_at (record { current = []; older = l ∷ ls }) r i
      ≡ line_at (record { current = l; older = ls }) r (i + 1)
line_at-scrolled l ls r i h =
    let inside : leb i r ≡ true = ground arith in
    let inside' : leb (i + 1) r ≡ true = ground arith in
    let e : r - i ≡ suc (r - (i + 1)) = omega arith in rw (inside, inside', e) refl

pub line_at-bottom : (t : Text) (r : ℕ) → line_at t r r ≡ t.current
line_at-bottom t r =
    let inside : leb r r ≡ true = ground arith in
    let e : r - r ≡ 0 = omega arith in rw (inside, e) refl

pub line_at-above :
    (l l' : List ℕ) (ls : List (List ℕ)) (r i : ℕ)
    → r ≢ i
    → line_at (record { current = l; older = ls }) r i
      ≡ line_at (record { current = l'; older = ls }) r i
line_at-above l l' ls r i ne = elim (Bool-cases (leb i r)) [
  | inl inside ↦ let e : r - i ≡ suc (r - i - 1) = ground arith in rw (inside, e) refl
  | inr below ↦ rw below refl
]

-- What is shown after a character in a row with room for it.
written_row :
    (ch : ℕ) (t : Text) (c : Console) (i : ℕ)
    → Shows t c
    → c.cursor_column < columns - 1
    → i < rows
    → get_or
        (set c.buffer c.cursor_row (set (get_or c.buffer c.cursor_row []) c.cursor_column ch))
        i
        []
      ≡ row_of (columns - 1) (line_at (record t { current = t.current ++ ch ∷ [] }) c.cursor_row i)
written_row ch t c i v room h = elim (ℕ_discrete c.cursor_row i) [
  | yes e ↦
      rw
        (
          ← e,
          line_at-bottom (record t { current = t.current ++ ch ∷ [] }) c.cursor_row,
          get_or-set_self c.buffer c.cursor_row
              (set (get_or c.buffer c.cursor_row []) c.cursor_column ch) []
              (omega (arith, v.size, v.bottom)),
          v.shown c.cursor_row (omega (arith, v.bottom)),
          line_at-bottom t c.cursor_row,
          column,
        )
        (set-row_of (columns - 1) ch t.current (omega (arith, v.column)))
  | no ne ↦
      get_or-set_ne c.buffer c.cursor_row i _ [] ne
      ∙ v.shown i h
      ∙ ap (row_of (columns - 1))
          (line_at-above t.current (t.current ++ ch ∷ []) t.older c.cursor_row i ne)
]
  where
    column : c.cursor_column ≡ length t.current
    column = omega (arith, v.column)

full_row :
    (ch : ℕ) (t : Text) (r i : ℕ)
    → columns - 1 ≤ length t.current
    → row_of (columns - 1) (line_at t r i)
      ≡ row_of (columns - 1) (line_at (record t { current = t.current ++ ch ∷ [] }) r i)
full_row ch t r i full = elim (ℕ_discrete r i) [
  | yes e ↦
      rw (← e, line_at-bottom t r, line_at-bottom (record t { current = t.current ++ ch ∷ [] }) r)
        (sym (row_of-full (columns - 1) ch t.current full))
  | no ne ↦
      ap (row_of (columns - 1)) (line_at-above t.current (t.current ++ ch ∷ []) t.older r i ne)
]

scrolled_line :
    (t : Text) (c : Console) (i : ℕ)
    → Shows t c
    → c.cursor_row ≡ rows - 1
    → i < rows
    → (if i == rows - 1 then blank_row else get_or c.buffer (i + 1) [])
      ≡ row_of
          (columns - 1)
          (line_at (record { current = []; older = t.current ∷ t.older }) c.cursor_row i)
scrolled_line t c i v last h = elim (Bool-cases (i == rows - 1)) [
  | inl e ↦
      let at_end : i ≡ c.cursor_row = ground arith in
      rw (e, at_end)
        (ap (row_of (columns - 1)) (
          sym (line_at-bottom (record { current = []; older = t.current ∷ t.older }) c.cursor_row)))
  | inr ne ↦ rw ne (
      v.shown (i + 1) (ground arith)
      ∙ ap (row_of (columns - 1))
          (sym (line_at-scrolled t.current t.older c.cursor_row i (ground arith))))
]

module _ (font_data : List ℕ) where
  newline-Shows :
      (t : Text) (c : Console)
      → Shows t c
      → Shows (record { current = []; older = t.current ∷ t.older }) (newline font_data c).1
  unfolding newline
  newline-Shows t c v = elim (Bool-cases (ltb c.cursor_row (rows - 1))) [
    | inl inner ↦ rw inner (record {
      size = v.size;
      bottom = ground (arith, v.bottom);
      column = omega arith;
      shown = λ i h.
          v.shown i h
          ∙ ap (row_of (columns - 1)) (sym (line_at-next t.current t.older c.cursor_row i));
    })
    | inr last ↦
        let at_end : c.cursor_row ≡ rows - 1 = ground (arith, v.bottom) in
        rw last (record {
          size = length-set _ _ _ ∙ (length-shift_rows 0 (rows - 1) c.buffer ∙ v.size);
          bottom = ground (arith, v.bottom);
          column = omega arith;
          shown = λ i h. scrolled_row c.buffer i v.size h ∙ scrolled_line t c i v at_end h;
        })
  ]

  pub put_char-Shows :
      (ch : ℕ) (t : Text) (c : Console)
      → Shows t c
      → Shows (add_char ch t) (put_char font_data ch c).1
  unfolding put_char
  put_char-Shows ch t c v = elim (Bool-cases (ch == 10)) [
    | inl line ↦ rw line (newline-Shows t c v)
    | inr other ↦ elim (Bool-cases (ltb c.cursor_column (columns - 1))) [
      | inl room ↦
          rw (other, room)
            (record {
              size = length-set c.buffer c.cursor_row _ ∙ v.size;
              bottom = v.bottom;
              column = ground (arith, v.column, length-append t.current (ch ∷ []));
              shown = λ i h. written_row ch t c i v (ground arith) h;
            })
      | inr full ↦
          rw (other, full)
            (record {
              size = v.size;
              bottom = v.bottom;
              column = ground (arith, v.column, length-append t.current (ch ∷ []));
              shown = λ i h. v.shown i h ∙ full_row ch t c.cursor_row i (ground (arith, v.column));
            })
    ]
  ]

  pub put_string-Shows :
      (s : List ℕ) (t : Text) (c : Console)
      → Shows t c
      → Shows (add_string s t) (put_string font_data s c).1
  unfolding put_string
  put_string-Shows [] t c v = v
  put_string-Shows (ch ∷ s) t c v =
      put_string-Shows s (add_char ch t) (put_char font_data ch c).1 (put_char-Shows ch t c v)
