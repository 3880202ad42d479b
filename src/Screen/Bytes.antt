-- ===== src/Screen/Bytes.antt =====
-- From the text to the bytes of the frame buffer, in both pixel formats.
use mikanos_m1mac.Base.{
  ℕ, ◌*◌, ◌^◌, ◌-◌, ◌≤◌, ◌<◌, refl, sym, subst, min, List, [], ◌∷◌, get_or-replicate_in, length,
  All, arith,
}
use mikanos_m1mac.Screen.{PixelColor, FrameBufferConfig, pixel_at, write_rgb, write_bgr}
use mikanos_m1mac.Screen.Frame.{draw, Holds, IsOnScreen, drawn-Holds}
use mikanos_m1mac.Screen.Console.{rows, columns, blank_row, new, put_string}
use mikanos_m1mac.Screen.Laws.{IsConsole, IsRow, blank_row-IsRow}
use mikanos_m1mac.Screen.Lines.{empty_text, add_string}
use mikanos_m1mac.Screen.Inside.{IsInConsole, put_string-IsInConsole}
use mikanos_m1mac.Screen.Display.{HasNoNull, text_color}
use mikanos_m1mac.Screen.Printed.{put_string-Displayed}

All-map {ℓ κ μ} :
    {A : Type ℓ} (P : A → Type κ) (Q : A → Type μ) (xs : List A)
    → ((a : A) → P a → Q a)
    → All P xs
    → All Q xs
All-map P Q [] f h = tt
All-map P Q (x ∷ xs) f (h, hs) = (f x h, All-map P Q xs f hs)

pub new-IsConsole : (fg_color bg_color : PixelColor) → IsConsole (new fg_color bg_color)
new-IsConsole fg_color bg_color = record {
  all_rows = refl;
  each_row = λ i h. subst IsRow (sym (get_or-replicate_in rows i blank_row [] h)) blank_row-IsRow;
  row_in_range = omega arith;
  column_in_range = omega arith;
}

-- The text as it is seen on a new console: its last line is in the row of its number, and at most in
-- the last one.
abbrev pub printed_color : List ℕ → List ℕ → PixelColor → PixelColor → ℕ → ℕ → PixelColor
printed_color font_data s fg_color bg_color px py =
    text_color font_data (add_string s empty_text)
      (min (length (add_string s empty_text).older) (rows - 1)) fg_color bg_color px py

module _ (font_data : List ℕ) (config : FrameBufferConfig) (lines : ℕ)
    (wide : 8 * columns ≤ config.pixels_per_scan_line) (high : 16 * rows ≤ lines)
    (fits : 4 * (config.pixels_per_scan_line * lines) ≤ 2 ^ 32) where
  -- In a frame buffer of at least 640 by 400 pixels and at most 4 GiB, where the console's part has
  -- the background's colour, printing on a new console leaves the bytes of the text's last 25 lines,
  -- each cut to 79 characters: every place of the console has the foreground's colour where the font
  -- has ink for the character there, and else the background's, in the order of the pixel format.
  pub printed-Holds :
      (px py : ℕ)
      → px < 8 * columns
      → py < 16 * rows
      → (s : List ℕ) (fg_color bg_color : PixelColor) (rgb bgr : ℕ → ℕ) → HasNoNull s
      → Holds rgb (pixel_at config px py) bg_color.r bg_color.g bg_color.b
      → Holds bgr (pixel_at config px py) bg_color.b bg_color.g bg_color.r
      → let ps = (put_string font_data s (new fg_color bg_color)).0 in
        let c = printed_color font_data s fg_color bg_color px py in
        Holds (draw (write_rgb config) ps rgb) (pixel_at config px py) c.r c.g c.b
        × Holds (draw (write_bgr config) ps bgr) (pixel_at config px py) c.b c.g c.r
  printed-Holds px py px_in py_in s fg_color bg_color rgb bgr h hr hb =
      let ps = (put_string font_data s (new fg_color bg_color)).0 in
      subst
        (λ c.
          Holds (draw (write_rgb config) ps rgb) (pixel_at config px py) c.r c.g c.b
          × Holds (draw (write_bgr config) ps bgr) (pixel_at config px py) c.b c.g c.r)
        (put_string-Displayed font_data px py px_in py_in s fg_color bg_color h)
        (drawn-Holds config lines fits px py (omega arith) (omega arith) ps bg_color rgb bgr
          (All-map IsInConsole (IsOnScreen config lines) ps (λ p inside. omega arith)
            (put_string-IsInConsole font_data s (new fg_color bg_color)
              (new-IsConsole fg_color bg_color)))
          hr hb)
