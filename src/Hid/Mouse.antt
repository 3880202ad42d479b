-- ===== src/Hid/Mouse.antt =====
-- kernel/usb/classdriver/mouse.cpp, and `MouseObserver` of kernel/main.cpp. An `int8_t` that becomes an
-- `int` is its word of 32 bits.
use mikanos_m1mac.Base.{
  ℕ, ◌+◌, ◌-◌, ◌%◌, ◌^◌, ◌<◌, ◌≡◌, u8, ltb, if◌then◌else◌, List, [], ◌∷◌, ◌++◌, length, get_or,
  Option, none, some, arith,
}
use mikanos_m1mac.Hid.{Driver}
use mikanos_m1mac.Hid as Hid
use mikanos_m1mac.Screen.{Pixel}
use mikanos_m1mac.Screen.Cursor.{MouseCursor, move_relative}

-- `HIDMouseDriver`: the driver with the observers, by their names.
pub record MouseDriver {ℓ} (O : Type ℓ) : Type ℓ where
  pub driver : Driver
  pub observers : List O

abbrev pub new {ℓ} : {O : Type ℓ} → ℕ → MouseDriver O
new interface_index = record { driver = Hid.new interface_index 3; observers = [] }

-- The array has room for four; a fifth is written behind it, which is undefined.
unfoldable pub subscribe_mouse_move {ℓ} : {O : Type ℓ} → O → MouseDriver O → Option (MouseDriver O)
subscribe_mouse_move observer d =
    if ltb (length d.observers) 4
    then some (record d { observers = d.observers ++ (observer ∷ []) })
    else none

-- A byte as a signed number.
abbrev pub int8_word : ℕ → ℕ
int8_word b = if ltb (u8 b) 128 then u8 b else u8 b + (2 ^ 32 - 2 ^ 8)

-- The calls of the observers, in order.
unfoldable pub notify_mouse_move {ℓ} : {O : Type ℓ} → List O → ℕ → ℕ → List (O × ℕ × ℕ)
notify_mouse_move [] x y = []
notify_mouse_move (o ∷ os) x y = (o, x, y) ∷ notify_mouse_move os x y

-- `OnDataReceived`
unfoldable pub on_mouse_data {ℓ} : {O : Type ℓ} → MouseDriver O → List (O × ℕ × ℕ)
on_mouse_data d =
    notify_mouse_move d.observers (int8_word (get_or d.driver.buf 1 0))
      (int8_word (get_or d.driver.buf 2 0))

unfoldable pub mouse_observer : ℕ → ℕ → MouseCursor → List Pixel × MouseCursor
mouse_observer displacement_x displacement_y =
    move_relative (record { x = displacement_x; y = displacement_y })

-- What the calls do to the cursor, when each observer is `MouseObserver`.
unfoldable pub move_all {ℓ} : {O : Type ℓ} → List (O × ℕ × ℕ) → MouseCursor → MouseCursor
move_all [] m = m
move_all ((_, x, y) ∷ calls) m = move_all calls (mouse_observer x y m).1

-- What a byte of a report adds to a coordinate, a word of 32 bits in two's complement: 0 to 127, or
-- −128 to −1, here with 256 on the other side.
abbrev pub Moves : ℕ → ℕ → ℕ → Type 0
Moves from by to =
    (to < 2 ^ 32) × ((to + (if ltb by 128 then 0 else 2 ^ 8)) % 2 ^ 32 ≡ (from + by) % 2 ^ 32)

coordinate :
    (from by : ℕ) → from < 2 ^ 32 → by < 2 ^ 8 → Moves from by ((from + int8_word by) % 2 ^ 32)
coordinate from by low small = (omega arith, ground arith)

-- A report of the mouse, whose buffer holds bytes, moves the cursor, from any place and with one
-- observer, by the signed bytes of the report, as words of 32 bits in two's complement: also over the
-- left and the upper edge.
pub report-Moves {ℓ} :
    {O : Type ℓ} (o : O) (d : MouseDriver O) (m : MouseCursor)
    → d.observers ≡ o ∷ []
    → m.position.x < 2 ^ 32
    → m.position.y < 2 ^ 32
    → get_or d.driver.buf 1 0 < 2 ^ 8
    → get_or d.driver.buf 2 0 < 2 ^ 8
    → let m' = move_all (on_mouse_data d) m in
      Moves m.position.x (get_or d.driver.buf 1 0) m'.position.x
      × Moves m.position.y (get_or d.driver.buf 2 0) m'.position.y
unfolding move_all on_mouse_data notify_mouse_move mouse_observer move_relative
report-Moves o d m one xh yh bx by =
    rw one (coordinate m.position.x _ xh bx, coordinate m.position.y _ yh by)
