-- ===== src/Screen/Frame.antt =====
-- The bytes of the frame buffer behind what is drawn: each pixel has three bytes of its own.
use mikanos_m1mac.Base.{
  ℕ, ◌+◌, ◌*◌, ◌^◌, ◌≤◌, ◌<◌, ◌≡◌, ◌⊎◌, ◌==◌, ◌&&◌, if◌then◌else◌, Bool, true, false, Bool-cases,
  List, [], ◌∷◌, inl, inr, All, arith, ap, ap₂, dec_lt,
}
use mikanos_m1mac.Screen.{PixelColor, FrameBufferConfig, Pixel, pixel_at, write_rgb, write_bgr}
use mikanos_m1mac.Screen.Paint.{paint}

-- The memory after some bytes are stored.
abbrev pub store : List (ℕ × ℕ) → (ℕ → ℕ) → ℕ → ℕ
store [] m = m
store ((a, v) ∷ ws) m = store ws (λ b. if b == a then v else m b)

-- `Write` for each pixel in order.
abbrev pub draw : (ℕ → ℕ → PixelColor → List (ℕ × ℕ)) → List Pixel → (ℕ → ℕ) → ℕ → ℕ
draw write [] m = m
draw write (p ∷ ps) m = draw write ps (store (write p.x p.y p.color) m)

-- Three bytes in a row.
abbrev pub Holds : (ℕ → ℕ) → ℕ → ℕ → ℕ → ℕ → Type 0
Holds m p b0 b1 b2 = (m p ≡ b0) × (m (p + 1) ≡ b1) × (m (p + 2) ≡ b2)

abbrev three_bytes : ℕ → ℕ → ℕ → ℕ → List (ℕ × ℕ)
three_bytes p b0 b1 b2 = (p, b0) ∷ (p + 1, b1) ∷ (p + 2, b2) ∷ []

store_here :
    (p q b0 b1 b2 : ℕ) (m : ℕ → ℕ) → p ≡ q → Holds (store (three_bytes p b0 b1 b2) m) q b0 b1 b2
store_here p q b0 b1 b2 m e = (ground arith, ground arith, ground arith)

store_apart :
    (p q b0 b1 b2 c0 c1 c2 : ℕ) (m : ℕ → ℕ)
    → p + 4 ≤ q ⊎ q + 4 ≤ p
    → Holds m q c0 c1 c2
    → Holds (store (three_bytes p b0 b1 b2) m) q c0 c1 c2
store_apart p q b0 b1 b2 c0 c1 c2 m apart (h0, h1, h2) = (ground arith, ground arith, ground arith)

next_line : (w y y' : ℕ) → y < y' → w * y + w ≤ w * y'
next_line w y y' h = grind arith

same_place : (w x y x' y' : ℕ) → x < w → x' < w → w * y + x ≡ w * y' + x' → (x ≡ x') × (y ≡ y')
same_place w x y x' y' hx hx' e = elim (dec_lt y y') [
  | yes less ↦ absurd (omega (arith, next_line w y y' less))
  | no not_less ↦ elim (dec_lt y' y) [
    | yes more ↦ absurd (omega (arith, next_line w y' y more))
    | no not_more ↦
        let same : y ≡ y' = omega arith in (omega (arith, ap (λ (t : ℕ). w * t) same), same)
  ]
]

module _ (config : FrameBufferConfig) (lines : ℕ) where
  abbrev pub IsOnScreen : Pixel → Type 0
  IsOnScreen p = (p.x < config.pixels_per_scan_line) × (p.y < lines)

  module _ (fits : 4 * (config.pixels_per_scan_line * lines) ≤ 2 ^ 32) where
    in_line :
        (x y : ℕ)
        → x < config.pixels_per_scan_line
        → y < lines
        → config.pixels_per_scan_line * y + x < config.pixels_per_scan_line * lines
    in_line x y hx hy = grind arith

    pixel_at_lem :
        (x y : ℕ)
        → x < config.pixels_per_scan_line
        → y < lines
        → pixel_at config x y ≡ config.frame_buffer + 4 * (config.pixels_per_scan_line * y + x)
    pixel_at_lem x y hx hy = omega (arith, in_line x y hx hy)

    -- Two places of the screen have the same address or are four bytes apart.
    places_apart :
        (x y px py : ℕ)
        → x < config.pixels_per_scan_line
        → y < lines
        → px < config.pixels_per_scan_line
        → py < lines
        → x == px && y == py ≡ false
        → pixel_at config x y + 4 ≤ pixel_at config px py
          ⊎ pixel_at config px py + 4 ≤ pixel_at config x y
    places_apart x y px py hx hy hpx hpy ne = ground (
      arith,
      pixel_at_lem x y hx hy,
      pixel_at_lem px py hpx hpy,
      same_place config.pixels_per_scan_line x y px py hx hpx,
    )

    stored :
        (x y px py b0 b1 b2 c0 c1 c2 : ℕ) (m : ℕ → ℕ)
        → x < config.pixels_per_scan_line
        → y < lines
        → px < config.pixels_per_scan_line
        → py < lines
        → Holds m (pixel_at config px py) c0 c1 c2
        → Holds
            (store (three_bytes (pixel_at config x y) b0 b1 b2) m)
            (pixel_at config px py)
            (if x == px && y == py then b0 else c0)
            (if x == px && y == py then b1 else c1)
            (if x == px && y == py then b2 else c2)
    stored x y px py b0 b1 b2 c0 c1 c2 m hx hy hpx hpy h = elim (Bool-cases (x == px && y == py)) [
      | inl same ↦
          let ex : x ≡ px = ground arith in
          let ey : y ≡ py = ground arith in
          rw same (
            store_here (pixel_at config x y) (pixel_at config px py) b0 b1 b2 m
              (ap₂ (pixel_at config) ex ey))
      | inr other ↦ rw other (
          store_apart (pixel_at config x y) (pixel_at config px py) b0 b1 b2 c0 c1 c2 m
            (places_apart x y px py hx hy hpx hpy other) h)
    ]

    module _ (px py : ℕ) (px_in : px < config.pixels_per_scan_line) (py_in : py < lines) where
      rgb_step :
          (t : Bool) (a c : PixelColor) (m : ℕ → ℕ)
          → Holds m
              (pixel_at config px py)
              (if t then a.r else c.r)
              (if t then a.g else c.g)
              (if t then a.b else c.b)
          → Holds m
              (pixel_at config px py)
              (if t then a else c).r
              (if t then a else c).g
              (if t then a else c).b
      rgb_step true a c m h = h
      rgb_step false a c m h = h

      bgr_step :
          (t : Bool) (a c : PixelColor) (m : ℕ → ℕ)
          → Holds m
              (pixel_at config px py)
              (if t then a.b else c.b)
              (if t then a.g else c.g)
              (if t then a.r else c.r)
          → Holds m
              (pixel_at config px py)
              (if t then a else c).b
              (if t then a else c).g
              (if t then a else c).r
      bgr_step true a c m h = h
      bgr_step false a c m h = h

      rgb-Holds :
          (ps : List Pixel) (c : PixelColor) (m : ℕ → ℕ)
          → All IsOnScreen ps
          → Holds m (pixel_at config px py) c.r c.g c.b
          → let c' = paint ps px py c in
            Holds (draw (write_rgb config) ps m) (pixel_at config px py) c'.r c'.g c'.b
      rgb-Holds [] c m on h = h
      rgb-Holds (p ∷ ps) c m ((hx, hy), on) h =
          rgb-Holds ps (if p.x == px && p.y == py then p.color else c)
            (store (write_rgb config p.x p.y p.color) m) on
            (rgb_step (p.x == px && p.y == py) p.color c
              (store (write_rgb config p.x p.y p.color) m)
              (stored p.x p.y px py p.color.r p.color.g p.color.b c.r c.g c.b m hx hy px_in py_in
                h))

      bgr-Holds :
          (ps : List Pixel) (c : PixelColor) (m : ℕ → ℕ)
          → All IsOnScreen ps
          → Holds m (pixel_at config px py) c.b c.g c.r
          → let c' = paint ps px py c in
            Holds (draw (write_bgr config) ps m) (pixel_at config px py) c'.b c'.g c'.r
      bgr-Holds [] c m on h = h
      bgr-Holds (p ∷ ps) c m ((hx, hy), on) h =
          bgr-Holds ps (if p.x == px && p.y == py then p.color else c)
            (store (write_bgr config p.x p.y p.color) m) on
            (bgr_step (p.x == px && p.y == py) p.color c
              (store (write_bgr config p.x p.y p.color) m)
              (stored p.x p.y px py p.color.b p.color.g p.color.r c.b c.g c.r m hx hy px_in py_in
                h))

      -- Both writers: as long as the frame buffer is below 4 GiB and the writes are inside it, the three
      -- bytes of a place hold the colour of the last write there, in the order of the format, and what
      -- they held before if there is none.
      pub drawn-Holds :
          (ps : List Pixel) (c : PixelColor) (rgb bgr : ℕ → ℕ)
          → All IsOnScreen ps
          → Holds rgb (pixel_at config px py) c.r c.g c.b
          → Holds bgr (pixel_at config px py) c.b c.g c.r
          → let c' = paint ps px py c in
            Holds (draw (write_rgb config) ps rgb) (pixel_at config px py) c'.r c'.g c'.b
            × Holds (draw (write_bgr config) ps bgr) (pixel_at config px py) c'.b c'.g c'.r
      drawn-Holds ps c rgb bgr on h h' = (rgb-Holds ps c rgb on h, bgr-Holds ps c bgr on h')
