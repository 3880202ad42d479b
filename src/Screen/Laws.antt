-- ===== src/Screen/Laws.antt =====
-- The console keeps its cursor and its rows in bounds and scrolls by one row.
use mikanos_m1mac.Base.{
  ℕ, ◌⊎◌, zero, suc, ◌+◌, ◌-◌, ◌≤◌, ◌<◌, ◌≡◌, ◌≢◌, refl, ◌∙◌, ltb, ◌==◌, if◌then◌else◌, true, false,
  Bool-cases, List, [], ◌∷◌, get_or, set, length, length-set, get_or-set_self, get_or-set_ne, inl,
  inr, arith, ℕ_discrete,
}
use mikanos_m1mac.Screen.Console.{
  Console, rows, columns, blank_row, shift_rows, newline, put_char, put_string,
}

pub length-shift_rows :
    (row n : ℕ) (buffer : List (List ℕ)) → length (shift_rows row n buffer) ≡ length buffer
unfolding shift_rows
length-shift_rows row zero buffer = refl
length-shift_rows row (suc n) buffer =
    length-shift_rows (row + 1) n (set buffer row (get_or buffer (row + 1) []))
    ∙ length-set buffer row _

-- Rows outside the range of the loop stay.
shift_rows_outside :
    (row n i : ℕ) (buffer : List (List ℕ))
    → i + 1 ≤ row ⊎ row + n ≤ i
    → get_or (shift_rows row n buffer) i [] ≡ get_or buffer i []
unfolding shift_rows
shift_rows_outside row zero i buffer h = refl
shift_rows_outside row (suc n) i buffer h =
    shift_rows_outside (row + 1) n i (set buffer row (get_or buffer (row + 1) [])) (ground arith)
    ∙ get_or-set_ne buffer row i _ [] (λ e. ground arith)

-- The rows in its range get the row below.
pub shift_rows_inside :
    (row n i : ℕ) (buffer : List (List ℕ))
    → row ≤ i
    → i < row + n
    → row + n < length buffer
    → get_or (shift_rows row n buffer) i [] ≡ get_or buffer (i + 1) []
unfolding shift_rows
shift_rows_inside row zero i buffer low high fits = absurd (omega arith)
shift_rows_inside row (suc n) i buffer low high fits = elim (ℕ_discrete row i) [
  | yes e ↦ rw (← e) (
      shift_rows_outside (row + 1) n row (set buffer row (get_or buffer (row + 1) []))
        (inl (omega arith))
      ∙ get_or-set_self buffer row _ [] (omega arith))
  | no ne ↦
      shift_rows_inside (row + 1) n i (set buffer row (get_or buffer (row + 1) [])) (omega arith)
        (omega arith) (omega (arith, length-set buffer row (get_or buffer (row + 1) [])))
      ∙ get_or-set_ne buffer row (i + 1) _ [] (λ e. omega arith)
]

-- The rows after the last one is passed: each is the one below it, and the last one is blank.
pub scrolled_row :
    (buffer : List (List ℕ)) (i : ℕ)
    → length buffer ≡ rows
    → i < rows
    → get_or (set (shift_rows 0 (rows - 1) buffer) (rows - 1) blank_row) i []
      ≡ (if i == rows - 1 then blank_row else get_or buffer (i + 1) [])
scrolled_row buffer i size h = elim (ℕ_discrete 24 i) [
  | yes e ↦ rw (← e) (
      get_or-set_self (shift_rows 0 24 buffer) 24 blank_row []
        (omega (arith, length-shift_rows 0 24 buffer, size)))
  | no ne ↦
      get_or-set_ne (shift_rows 0 24 buffer) 24 i blank_row [] ne
      ∙ shift_rows_inside 0 24 i buffer (omega arith) (omega arith) (omega (arith, size))
      ∙ rw (not_last ne) refl
]
  where
    not_last : 24 ≢ i → i == 24 ≡ false
    not_last ne = ground arith

-- A row is a string of at most 79 characters: its last two bytes are null.
pub record IsRow (row : List ℕ) : Type 0 where
  pub size : length row ≡ columns + 1
  pub ended : get_or row (columns - 1) 1 ≡ 0
  pub end_of_row : get_or row columns 1 ≡ 0

pub record IsConsole (c : Console) : Type 0 where
  pub all_rows : length c.buffer ≡ rows
  pub each_row : (i : ℕ) → i < rows → IsRow (get_or c.buffer i [])
  pub row_in_range : c.cursor_row < rows
  pub column_in_range : c.cursor_column < columns

pub blank_row-IsRow : IsRow blank_row
blank_row-IsRow = record { size = refl; ended = refl; end_of_row = refl }

module _ (font_data : List ℕ) where
  newline-IsConsole : (c : Console) → IsConsole c → IsConsole (newline font_data c).1
  unfolding newline
  newline-IsConsole c v = elim (Bool-cases (ltb c.cursor_row (rows - 1))) [
    | inl inner ↦ rw inner (record {
      all_rows = v.all_rows;
      each_row = v.each_row;
      row_in_range = ground arith;
      column_in_range = omega arith;
    })
    | inr last ↦ rw last (record {
      all_rows =
          length-set (shift_rows 0 24 c.buffer) 24 blank_row
          ∙ length-shift_rows 0 24 c.buffer
          ∙ v.all_rows;
      each_row = scrolled;
      row_in_range = v.row_in_range;
      column_in_range = omega arith;
    })
  ]
    where
      scrolled :
          (i : ℕ) → i < rows → IsRow (get_or (set (shift_rows 0 24 c.buffer) 24 blank_row) i [])
      scrolled i h = elim (Bool-cases (i == 24)) [
        | inl e ↦ rw (scrolled_row c.buffer i v.all_rows h, e) blank_row-IsRow
        | inr ne ↦ rw (scrolled_row c.buffer i v.all_rows h, ne) (v.each_row (i + 1) (ground arith))
      ]

  set-IsRow :
      (row : List ℕ) (column ch : ℕ) → IsRow row → column < columns - 1 → IsRow (set row column ch)
  set-IsRow row column ch v h = record {
    size = length-set row column ch ∙ v.size;
    ended = get_or-set_ne row column 79 ch 1 (λ e. omega arith) ∙ v.ended;
    end_of_row = get_or-set_ne row column 80 ch 1 (λ e. omega arith) ∙ v.end_of_row;
  }

  pub put_char-IsConsole :
      (ch : ℕ) (c : Console) → IsConsole c → IsConsole (put_char font_data ch c).1
  unfolding put_char
  put_char-IsConsole ch c v = elim (Bool-cases (ch == 10)) [
    | inl line ↦ rw line (newline-IsConsole c v)
    | inr other ↦ elim (Bool-cases (ltb c.cursor_column (columns - 1))) [
      | inl room ↦
          rw (other, room)
            (record {
              all_rows = length-set c.buffer c.cursor_row _ ∙ v.all_rows;
              each_row = written room;
              row_in_range = v.row_in_range;
              column_in_range = ground arith;
            })
      | inr full ↦ rw (other, full) v
    ]
  ]
    where
      written :
          ltb c.cursor_column (columns - 1) ≡ true
          → (i : ℕ) → i < rows
          → IsRow (
              get_or
                (set c.buffer c.cursor_row
                  (set (get_or c.buffer c.cursor_row []) c.cursor_column ch))
                i
                [])
      written room i h = elim (ℕ_discrete c.cursor_row i) [
        | yes e ↦
            rw
              (
                ← e,
                get_or-set_self c.buffer c.cursor_row
                    (set (get_or c.buffer c.cursor_row []) c.cursor_column ch) []
                    (omega (arith, v.all_rows, v.row_in_range)),
              )
              (set-IsRow (get_or c.buffer c.cursor_row []) c.cursor_column ch
                (v.each_row c.cursor_row v.row_in_range) (ground arith))
        | no ne ↦ rw (get_or-set_ne c.buffer c.cursor_row i _ [] ne) (v.each_row i h)
      ]

  -- Whatever is printed, the console keeps 25 rows of 81 bytes, each ended by null bytes from its
  -- column 79 on, and its cursor on one of their first 80 columns.
  pub put_string-IsConsole :
      (s : List ℕ) (c : Console) → IsConsole c → IsConsole (put_string font_data s c).1
  unfolding put_string
  put_string-IsConsole [] c v = v
  put_string-IsConsole (ch ∷ s) c v =
      put_string-IsConsole s (put_char font_data ch c).1 (put_char-IsConsole ch c v)

  -- A newline on the last row moves every row up by one and leaves the last one blank.
  newline-scrolls :
      (c : Console) (i : ℕ)
      → IsConsole c
      → c.cursor_row ≡ rows - 1
      → i < rows
      → get_or (newline font_data c).1.buffer i []
        ≡ (if i == rows - 1 then blank_row else get_or c.buffer (i + 1) [])
  unfolding newline
  newline-scrolls c i v last h = rw last (scrolled_row c.buffer i v.all_rows h)
