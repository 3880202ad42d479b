-- ===== src/Screen/Cursor.antt =====
-- The mouse cursor of kernel/mouse.cpp.
use mikanos_m1mac.Base.{ℕ, ◌+◌, List, [], ◌∷◌, ◌++◌, get_or}
use mikanos_m1mac.Screen.{PixelColor, Pixel, Vector2D, add_vector, loop, pixel}

-- The three characters of `mouse_cursor_shape`: `@`, `.` and the space.
pub data Dot : Type 0 where
  at dot gap : Dot

abbrev pub mouse_cursor_width : ℕ
mouse_cursor_width = 15

abbrev pub mouse_cursor_height : ℕ
mouse_cursor_height = 24

abbrev pub mouse_cursor_shape : List (List Dot)
mouse_cursor_shape =
    (at ∷ gap ∷ gap ∷ gap ∷ gap ∷ gap ∷ gap ∷ gap ∷ gap ∷ gap ∷ gap ∷ gap ∷ gap ∷ gap ∷ gap ∷ [])
    ∷ (at ∷ at ∷ gap ∷ gap ∷ gap ∷ gap ∷ gap ∷ gap ∷ gap ∷ gap ∷ gap ∷ gap ∷ gap ∷ gap ∷ gap ∷ [])
    ∷ (at ∷ dot ∷ at ∷ gap ∷ gap ∷ gap ∷ gap ∷ gap ∷ gap ∷ gap ∷ gap ∷ gap ∷ gap ∷ gap ∷ gap ∷ [])
    ∷ (at ∷ dot ∷ dot ∷ at ∷ gap ∷ gap ∷ gap ∷ gap ∷ gap ∷ gap ∷ gap ∷ gap ∷ gap ∷ gap ∷ gap ∷ [])
    ∷ (at ∷ dot ∷ dot ∷ dot ∷ at ∷ gap ∷ gap ∷ gap ∷ gap ∷ gap ∷ gap ∷ gap ∷ gap ∷ gap ∷ gap ∷ [])
    ∷ (at ∷ dot ∷ dot ∷ dot ∷ dot ∷ at ∷ gap ∷ gap ∷ gap ∷ gap ∷ gap ∷ gap ∷ gap ∷ gap ∷ gap ∷ [])
    ∷ (at ∷ dot ∷ dot ∷ dot ∷ dot ∷ dot ∷ at ∷ gap ∷ gap ∷ gap ∷ gap ∷ gap ∷ gap ∷ gap ∷ gap ∷ [])
    ∷ (at ∷ dot ∷ dot ∷ dot ∷ dot ∷ dot ∷ dot ∷ at ∷ gap ∷ gap ∷ gap ∷ gap ∷ gap ∷ gap ∷ gap ∷ [])
    ∷ (at ∷ dot ∷ dot ∷ dot ∷ dot ∷ dot ∷ dot ∷ dot ∷ at ∷ gap ∷ gap ∷ gap ∷ gap ∷ gap ∷ gap ∷ [])
    ∷ (at ∷ dot ∷ dot ∷ dot ∷ dot ∷ dot ∷ dot ∷ dot ∷ dot ∷ at ∷ gap ∷ gap ∷ gap ∷ gap ∷ gap ∷ [])
    ∷ (at ∷ dot ∷ dot ∷ dot ∷ dot ∷ dot ∷ dot ∷ dot ∷ dot ∷ dot ∷ at ∷ gap ∷ gap ∷ gap ∷ gap ∷ [])
    ∷ (at ∷ dot ∷ dot ∷ dot ∷ dot ∷ dot ∷ dot ∷ dot ∷ dot ∷ dot ∷ dot ∷ at ∷ gap ∷ gap ∷ gap ∷ [])
    ∷ (at ∷ dot ∷ dot ∷ dot ∷ dot ∷ dot ∷ dot ∷ dot ∷ dot ∷ dot ∷ dot ∷ dot ∷ at ∷ gap ∷ gap ∷ [])
    ∷ (at ∷ dot ∷ dot ∷ dot ∷ dot ∷ dot ∷ dot ∷ dot ∷ dot ∷ dot ∷ dot ∷ dot ∷ dot ∷ at ∷ gap ∷ [])
    ∷ (at ∷ dot ∷ dot ∷ dot ∷ dot ∷ dot ∷ dot ∷ at ∷ at ∷ at ∷ at ∷ at ∷ at ∷ at ∷ at ∷ [])
    ∷ (at ∷ dot ∷ dot ∷ dot ∷ dot ∷ dot ∷ dot ∷ at ∷ gap ∷ gap ∷ gap ∷ gap ∷ gap ∷ gap ∷ gap ∷ [])
    ∷ (at ∷ dot ∷ dot ∷ dot ∷ dot ∷ at ∷ at ∷ dot ∷ at ∷ gap ∷ gap ∷ gap ∷ gap ∷ gap ∷ gap ∷ [])
    ∷ (at ∷ dot ∷ dot ∷ dot ∷ at ∷ gap ∷ at ∷ dot ∷ at ∷ gap ∷ gap ∷ gap ∷ gap ∷ gap ∷ gap ∷ [])
    ∷ (at ∷ dot ∷ dot ∷ at ∷ gap ∷ gap ∷ gap ∷ at ∷ dot ∷ at ∷ gap ∷ gap ∷ gap ∷ gap ∷ gap ∷ [])
    ∷ (at ∷ dot ∷ at ∷ gap ∷ gap ∷ gap ∷ gap ∷ at ∷ dot ∷ at ∷ gap ∷ gap ∷ gap ∷ gap ∷ gap ∷ [])
    ∷ (at ∷ at ∷ gap ∷ gap ∷ gap ∷ gap ∷ gap ∷ gap ∷ at ∷ dot ∷ at ∷ gap ∷ gap ∷ gap ∷ gap ∷ [])
    ∷ (at ∷ gap ∷ gap ∷ gap ∷ gap ∷ gap ∷ gap ∷ gap ∷ at ∷ dot ∷ at ∷ gap ∷ gap ∷ gap ∷ gap ∷ [])
    ∷ (gap ∷ gap ∷ gap ∷ gap ∷ gap ∷ gap ∷ gap ∷ gap ∷ gap ∷ at ∷ dot ∷ at ∷ gap ∷ gap ∷ gap ∷ [])
    ∷ (gap ∷ gap ∷ gap ∷ gap ∷ gap ∷ gap ∷ gap ∷ gap ∷ gap ∷ at ∷ at ∷ at ∷ gap ∷ gap ∷ gap ∷ [])
    ∷ []

abbrev pub shape_at : ℕ → ℕ → Dot
shape_at dy dx = get_or (get_or mouse_cursor_shape dy []) dx gap

abbrev pub black : PixelColor
black = record { r = 0; g = 0; b = 0 }

abbrev pub white : PixelColor
white = record { r = 255; g = 255; b = 255 }

-- One round of the loops of `DrawMouseCursor` and of `EraseMouseCursor`.
abbrev pub draw_dot : Dot → ℕ → ℕ → List Pixel
draw_dot at x y = pixel x y black ∷ []
draw_dot dot x y = pixel x y white ∷ []
draw_dot gap x y = []

abbrev pub erase_dot : PixelColor → Dot → ℕ → ℕ → List Pixel
erase_dot c gap x y = []
erase_dot c d x y = pixel x y c ∷ []

unfoldable pub draw_mouse_cursor : Vector2D → List Pixel
draw_mouse_cursor position = loop 0 mouse_cursor_height (λ dy.
    loop 0 mouse_cursor_width (λ dx. draw_dot (shape_at dy dx) (position.x + dx) (position.y + dy)))

unfoldable pub erase_mouse_cursor : Vector2D → PixelColor → List Pixel
erase_mouse_cursor position erase_color = loop 0 mouse_cursor_height (λ dy.
    loop 0 mouse_cursor_width
      (λ dx. erase_dot erase_color (shape_at dy dx) (position.x + dx) (position.y + dy)))

pub record MouseCursor : Type 0 where
  pub erase_color : PixelColor
  pub position : Vector2D

-- The constructor draws the cursor.
abbrev pub new : PixelColor → Vector2D → List Pixel × MouseCursor
new erase_color initial_position = (
  draw_mouse_cursor initial_position,
  record { erase_color = erase_color; position = initial_position },
)

unfoldable pub move_relative : Vector2D → MouseCursor → List Pixel × MouseCursor
move_relative displacement m =
    let position = add_vector m.position displacement in
    (
      erase_mouse_cursor m.position m.erase_color ++ draw_mouse_cursor position,
      record m { position = position },
    )
