-- ===== src/Screen.antt =====
-- kernel/graphics.hpp, graphics.cpp, font.cpp and mouse.cpp: what is drawn. A coordinate is an `int`
-- as a 32-bit word, so that a negative one is a large word; drawing gives the pixels in the order in
-- which they are written.
pub mod Console
pub mod Cursor
pub mod Erase
pub mod Laws
pub mod Lines
pub mod Paint
pub mod Frame
pub mod Bytes
pub mod Ink
pub mod Inside
pub mod Display
pub mod Seen
pub mod Printed
mod Examples
use mikanos_m1mac.Base.{
  ℕ, zero, suc, ◌+◌, ◌-◌, ◌*◌, ◌/◌, ◌%◌, ◌^◌, ltb, leb, ◌==◌, not, if◌then◌else◌, Bool, true, false,
  Option, none, some, List, [], ◌∷◌, ◌++◌, get_or, length, u8, u32, bit_and, ◌<<<◌,
}

pub record PixelColor : Type 0 where
  pub r : ℕ
  pub g : ℕ
  pub b : ℕ

pub record FrameBufferConfig : Type 0 where
  pub frame_buffer : ℕ
  pub pixels_per_scan_line : ℕ

-- `PixelWriter::PixelAt`, with its unsigned 32-bit product.
abbrev pub pixel_at : FrameBufferConfig → ℕ → ℕ → ℕ
pixel_at config x y = config.frame_buffer + u32 (4 * u32 (config.pixels_per_scan_line * y + x))

-- The bytes that the two writers store.
abbrev pub write_rgb : FrameBufferConfig → ℕ → ℕ → PixelColor → List (ℕ × ℕ)
write_rgb config x y c = let p = pixel_at config x y in (p, c.r) ∷ (p + 1, c.g) ∷ (p + 2, c.b) ∷ []

abbrev pub write_bgr : FrameBufferConfig → ℕ → ℕ → PixelColor → List (ℕ × ℕ)
write_bgr config x y c = let p = pixel_at config x y in (p, c.b) ∷ (p + 1, c.g) ∷ (p + 2, c.r) ∷ []

-- A call of `Write`.
pub record Pixel : Type 0 where
  pub x : ℕ
  pub y : ℕ
  pub color : PixelColor

-- `Vector2D<int>`, and its `operator+=`.
pub record Vector2D : Type 0 where
  pub x : ℕ
  pub y : ℕ

abbrev pub add_vector : Vector2D → Vector2D → Vector2D
add_vector a b = record { x = u32 (a.x + b.x); y = u32 (a.y + b.y) }

-- The loop `for (i = from; i < from + n; i++)` over what each round draws.
abbrev pub loop {ℓ} : {A : Type ℓ} → ℕ → ℕ → (ℕ → List A) → List A
loop from zero body = []
loop from (suc n) body = body from ++ loop (from + 1) n body

abbrev pub pixel : ℕ → ℕ → PixelColor → Pixel
pixel x y c = record { x = u32 x; y = u32 y; color = c }

unfoldable pub draw_rectangle : Vector2D → Vector2D → PixelColor → List Pixel
draw_rectangle pos size c =
    loop 0 size.x
      (λ dx. pixel (pos.x + dx) pos.y c ∷ pixel (pos.x + dx) (pos.y + size.y + (2 ^ 32 - 1)) c ∷ [])
    ++ loop 1 (size.y - 2) (λ dy.
      pixel pos.x (pos.y + dy) c ∷ pixel (pos.x + size.x + (2 ^ 32 - 1)) (pos.y + dy) c ∷ [])

unfoldable pub fill_rectangle : Vector2D → Vector2D → PixelColor → List Pixel
fill_rectangle pos size c =
    loop 0 size.y (λ dy. loop 0 size.x (λ dx. pixel (pos.x + dx) (pos.y + dy) c ∷ []))

-- The font is the linked file `hankaku.bin`, a parameter: 16 bytes for each character. A `char` is
-- signed, so that one from 128 on is converted to a large index.
module _ (font_data : List ℕ) where
  abbrev pub char_index : ℕ → ℕ
  char_index c = u32 (16 * (if leb 128 c then c + (2 ^ 32 - 256) else c))

  unfoldable pub get_font : ℕ → Option ℕ
  get_font c = if leb (length font_data) (char_index c) then none else some (char_index c)

  -- Bit `7 - dx` of the font's row `dy`.
  abbrev pub is_set : ℕ → ℕ → ℕ → Bool
  is_set font dy dx = not (bit_and (get_or font_data (font + dy) 0 <<< dx) 0x80 == 0)

  unfoldable pub write_ascii : ℕ → ℕ → ℕ → PixelColor → List Pixel
  write_ascii x y c color = elim (get_font c) [
    | none ↦ []
    | some font ↦ loop 0 16 (λ dy.
        loop 0 8 (λ dx. if is_set font dy dx then pixel (x + dx) (y + dy) color ∷ [] else []))
  ]

  -- `WriteString`: the characters in front of the first null, or of the end of the array.
  unfoldable pub write_string : ℕ → ℕ → List ℕ → PixelColor → List Pixel
  write_string x y [] color = []
  write_string x y (c ∷ s) color =
      let rest = write_string (x + 8) y s color in
      if c == 0 then [] else write_ascii x y c color ++ rest
