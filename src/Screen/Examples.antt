-- ===== src/Screen/Examples.antt =====
-- A console that prints `A` and a newline, and the cursor moved twice.
use mikanos_m1mac.Base.{ℕ, List, All, ◌≡◌, refl, [], ◌∷◌, ◌++◌, map, replicate, arith}
use mikanos_m1mac.Screen.{
  Vector2D, add_vector, FrameBufferConfig, pixel, pixel_at, write_rgb, write_bgr, get_font,
}
use mikanos_m1mac.Screen.Cursor.{MouseCursor, black, white, draw_mouse_cursor, move_relative}
use mikanos_m1mac.Screen.Console.{Console, new, put_string}
use mikanos_m1mac.Screen.Paint.{paint}
use mikanos_m1mac.Screen.Frame.{Holds, draw, drawn-Holds}
use mikanos_m1mac.Screen.Inside.{IsInConsole, put_string-IsInConsole}
use mikanos_m1mac.Screen.Bytes.{new-IsConsole, printed_color, printed-Holds}
use mikanos_m1mac.Screen.Erase.{spot, move_relative-erases}

abbrev console : Console
console = new white black

-- A font of 64 blank characters, 16 bytes each, and an `A` whose rows are all `0x18`.
abbrev font : List ℕ
font = replicate 1040 0 ++ replicate 16 0x18

-- The place in column 3 of row 5 of the second character.
abbrev config : FrameBufferConfig
config = record { frame_buffer = 0x80000000; pixels_per_scan_line = 640 }

printed-Holds_example :
    let ps = (put_string font (66 ∷ 65 ∷ []) (new white black)).0 in
    let c = printed_color font (66 ∷ 65 ∷ []) white black 11 5 in
    Holds (draw (write_rgb config) ps (λ _. 0)) (pixel_at config 11 5) c.r c.g c.b
    × Holds (draw (write_bgr config) ps (λ _. 0)) (pixel_at config 11 5) c.b c.g c.r
printed-Holds_example =
    printed-Holds font config 400 (omega arith) (omega arith) (omega arith) 11 5 (omega arith)
      (omega arith) (66 ∷ 65 ∷ []) white black (λ _. 0) (λ _. 0)
      ((λ e. omega (arith, e)), ((λ e. omega (arith, e)), tt)) (refl, refl, refl) (refl, refl, refl)

-- A place that is drawn twice.
pixel_drawn :
    let ps = pixel 3 4 white ∷ pixel 3 5 white ∷ pixel 3 4 black ∷ [] in
    let c = paint ps 3 4 white in
    Holds (draw (write_rgb config) ps (λ _. 255)) (pixel_at config 3 4) c.r c.g c.b
    × Holds (draw (write_bgr config) ps (λ _. 255)) (pixel_at config 3 4) c.b c.g c.r
pixel_drawn =
    drawn-Holds config 400 (omega arith) 3 4 (omega arith) (omega arith)
      (pixel 3 4 white ∷ pixel 3 5 white ∷ pixel 3 4 black ∷ []) white (λ _. 255) (λ _. 255)
      (omega arith) (refl, refl, refl) (refl, refl, refl)

put_string-IsInConsole_example : All IsInConsole (put_string font (65 ∷ 10 ∷ []) console).0
put_string-IsInConsole_example =
    put_string-IsInConsole font (65 ∷ 10 ∷ []) console (new-IsConsole white black)

second_is_white : printed_color font (66 ∷ 65 ∷ []) white black 11 5 ≡ white
unfolding get_font
second_is_white = refl

abbrev step : Vector2D
step = record { x = 0xffff_ffff; y = 5 }

abbrev cursor : MouseCursor
cursor = record { erase_color = white; position = record { x = 300; y = 200 } }

move_relative-erases_example :
    (map spot (move_relative step (move_relative step cursor).1).0
      ≡ map spot (draw_mouse_cursor (add_vector cursor.position step))
        ++ map spot (draw_mouse_cursor (add_vector (add_vector cursor.position step) step)))
    × ((move_relative step (move_relative step cursor).1).1.position
        ≡ add_vector (add_vector cursor.position step) step)
move_relative-erases_example = move_relative-erases step step cursor
