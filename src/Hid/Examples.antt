-- ===== src/Hid/Examples.antt =====
-- A keyboard that reports key 4, twice.
use mikanos_m1mac.Base.{
  ℕ, ◌+◌, ◌≡◌, refl, [], ◌∷◌, take, drop, ◌&&◌, not, ◌==◌, replicate, none, arith,
}
use mikanos_m1mac.Errors.{success}
use mikanos_m1mac.Hid.{
  Driver, ParentDevice, new, contains, keyboard_data, on_interrupt_completed, subscribe_key_push,
}
use mikanos_m1mac.Hid.Mouse.{MouseDriver, move_all, on_mouse_data, Moves, report-Moves}
use mikanos_m1mac.Screen.Cursor.{MouseCursor}
use mikanos_m1mac.Hid.Keys.{contains-keyboard_data, keyboard_data-again}

abbrev keyboard : Driver
keyboard = record (new 0 8) {
  ep_interrupt_in = 3;
  buf = 2 ∷ 0 ∷ 4 ∷ replicate 13 0;
  previous_buf = 4 ∷ replicate 15 0;
}

-- Key 4 is held back by the modifier byte of the report before.
contains-keyboard_data_example : contains 4 (keyboard_data keyboard) ≡ (
    contains 4 (take 6 (drop 2 keyboard.buf))
    && not (4 == 0)
    && not (contains 4 keyboard.previous_buf))
contains-keyboard_data_example = contains-keyboard_data 4 keyboard (omega arith)

abbrev parent : ParentDevice ℕ
parent = record { control_out = λ ep s d. (success, d); interrupt_in = λ ep n d. (success, d + 1) }

same_report_pushes_nothing :
    keyboard_data ((on_interrupt_completed parent keyboard_data 3 8 keyboard 0).2) ≡ []
same_report_pushes_nothing =
    keyboard_data-again parent 3 8 keyboard 0 refl (omega arith) (omega arith)

-- A report that moves the mouse two to the left and three down.
abbrev moved_mouse : MouseDriver ℕ
moved_mouse = record { driver = record (new 0 3) { buf = 0 ∷ 0xfe ∷ 3 ∷ [] }; observers = 0 ∷ [] }

abbrev cursor : MouseCursor
cursor = record {
  erase_color = record { r = 0; g = 0; b = 0 };
  position = record { x = 300; y = 200 };
}

report-Moves_example :
    let m' = move_all (on_mouse_data moved_mouse) cursor in
    Moves 300 0xfe m'.position.x × Moves 200 3 m'.position.y
report-Moves_example =
    report-Moves 0 moved_mouse cursor refl (omega arith) (omega arith) (omega arith) (omega arith)

fifth_observer : subscribe_key_push {O = ℕ} 5 (1 ∷ 2 ∷ 3 ∷ 4 ∷ []) ≡ none
unfolding subscribe_key_push
fifth_observer = refl
