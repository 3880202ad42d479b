-- ===== src/Screen/Console.antt =====
-- kernel/console.hpp and console.cpp: the text console.
use mikanos_m1mac.Base.{
  ℕ, zero, suc, ◌+◌, ◌-◌, ◌*◌, ltb, ◌==◌, if◌then◌else◌, List, [], ◌∷◌, ◌++◌, get_or, set,
  replicate,
}
use mikanos_m1mac.Screen.{PixelColor, Pixel, loop, pixel, write_ascii, write_string}

abbrev pub rows : ℕ
rows = 25

abbrev pub columns : ℕ
columns = 80

pub record Console : Type 0 where
  pub fg_color : PixelColor
  pub bg_color : PixelColor
  pub buffer : List (List ℕ)
  pub cursor_row : ℕ
  pub cursor_column : ℕ

abbrev pub blank_row : List ℕ
blank_row = replicate (columns + 1) 0

abbrev pub new : PixelColor → PixelColor → Console
new fg_color bg_color = record {
  fg_color = fg_color;
  bg_color = bg_color;
  buffer = replicate rows blank_row;
  cursor_row = 0;
  cursor_column = 0;
}

-- The loop of `Newline` that moves the rows up, from `row` on, `n` of them.
unfoldable pub shift_rows : ℕ → ℕ → List (List ℕ) → List (List ℕ)
shift_rows row zero buffer = buffer
shift_rows row (suc n) buffer = shift_rows (row + 1) n (set buffer row (get_or buffer (row + 1) []))

-- The background, all over the console.
unfoldable pub clear : PixelColor → List Pixel
clear color = loop 0 (16 * rows) (λ y. loop 0 (8 * columns) (λ x. pixel x y color ∷ []))

module _ (font_data : List ℕ) where
  -- And what it draws: each row after its move.
  unfoldable pub draw_rows : List (List ℕ) → PixelColor → List Pixel
  draw_rows buffer color =
      loop 0 (rows - 1) (λ row. write_string font_data 0 (16 * row) (get_or buffer row []) color)

  unfoldable pub newline : Console → List Pixel × Console
  newline c =
      let moved = shift_rows 0 (rows - 1) c.buffer in
      if ltb c.cursor_row (rows - 1)
      then ([], record c { cursor_column = 0; cursor_row = c.cursor_row + 1 })
      else (
        clear c.bg_color ++ draw_rows moved c.fg_color,
        record c { cursor_column = 0; buffer = set moved (rows - 1) blank_row },
      )

  -- One round of the loop of `PutString`; 10 is the newline.
  unfoldable pub put_char : ℕ → Console → List Pixel × Console
  put_char ch c =
      let line = newline c in
      if ch == 10
      then line
      else if ltb c.cursor_column (columns - 1)
      then (
        write_ascii font_data (8 * c.cursor_column) (16 * c.cursor_row) ch c.fg_color,
        record c {
          buffer =
              set c.buffer c.cursor_row (set (get_or c.buffer c.cursor_row []) c.cursor_column ch);
          cursor_column = c.cursor_column + 1;
        },
      )
      else ([], c)

  -- `PutString`, on the characters in front of the null.
  unfoldable pub put_string : List ℕ → Console → List Pixel × Console
  put_string [] c = ([], c)
  put_string (ch ∷ s) c =
      let out = put_char ch c in let rest = put_string s out.1 in (out.0 ++ rest.0, rest.1)
