-- ===== src/Hid.antt =====
-- kernel/usb/classdriver/hid.cpp and keyboard.cpp: the base class of the HID drivers, and the
-- keyboard. The device that a driver belongs to is an interface; what an observer is called with is
-- a list, in the order of the calls. A driver's `buf` holds what the controller wrote into `buf_`.
pub mod Keys
pub mod Mouse
mod Examples
use mikanos_m1mac.Base.{
  ℕ, zero, suc, ◌+◌, Bool, true, false, not, ◌==◌, ◌&&◌, ◌||◌, if◌then◌else◌, List, [], ◌∷◌, ◌++◌,
  get_or, take, drop, replicate, length, ltb, Option, none, some,
}
use mikanos_m1mac.Errors.{Code, success, not_implemented}
use mikanos_m1mac.Endpoint.{EndpointConfig, is_interrupt, is_in, default_control_pipe_id}
use mikanos_m1mac.SetupData.{
  SetupData, request_bits, dir_out, class_request, to_interface, set_protocol,
}

-- The calls of `usb::Device` that a class driver makes: `ControlOut` without data, and `InterruptIn`
-- into the driver's buffer.
pub record ParentDevice {ℓ} (D : Type ℓ) : Type ℓ where
  pub control_out : ℕ → SetupData → D → Code × D
  pub interrupt_in : ℕ → ℕ → D → Code × D

abbrev pub buffer_size : ℕ
buffer_size = 1024

pub record Driver : Type 0 where
  pub ep_interrupt_in : ℕ
  pub ep_interrupt_out : ℕ
  pub interface_index : ℕ
  pub in_packet_size : ℕ
  pub initialize_phase : ℕ
  pub buf : List ℕ
  pub previous_buf : List ℕ

abbrev pub new : ℕ → ℕ → Driver
new interface_index in_packet_size = record {
  ep_interrupt_in = 0;
  ep_interrupt_out = 0;
  interface_index = interface_index;
  in_packet_size = in_packet_size;
  initialize_phase = 0;
  buf = replicate buffer_size 0;
  previous_buf = replicate buffer_size 0;
}

abbrev pub set_endpoint : EndpointConfig → Driver → Driver
set_endpoint config d =
    if is_interrupt config.ep_type && is_in config.ep_id
    then record d { ep_interrupt_in = config.ep_id }
    else if is_interrupt config.ep_type && not (is_in config.ep_id)
    then record d { ep_interrupt_out = config.ep_id }
    else d

-- `std::copy_n(from.begin(), len, to.begin())`
abbrev pub copy_n : ℕ → List ℕ → List ℕ → List ℕ
copy_n len from to = take len from ++ drop len to

module _ {ℓ} {D : Type ℓ} (parent : ParentDevice D) where
  -- Ask for the boot protocol.
  unfoldable pub on_endpoints_configured : Driver → D → Code × Driver × D
  on_endpoints_configured d dev =
      let setup_data : SetupData = record {
        request_type = request_bits dir_out class_request to_interface;
        request = set_protocol;
        value = 0;
        index = d.interface_index;
        length = 0;
      } in
      let out = parent.control_out default_control_pipe_id setup_data dev in
      (out.0, record d { initialize_phase = 1 }, out.1)

  unfoldable pub on_control_completed : Driver → D → Code × Driver × D
  on_control_completed d dev =
      let out = parent.interrupt_in d.ep_interrupt_in d.in_packet_size dev in
      if d.initialize_phase == 1
      then (out.0, record d { initialize_phase = 2 }, out.1)
      else (not_implemented, d, dev)

  -- With the calls of the observers that `OnDataReceived`, a virtual function, makes.
  unfoldable pub on_interrupt_completed {κ} :
      {Call : Type κ} → (Driver → List Call) → ℕ → ℕ → Driver → D → List Call × Code × Driver × D
  on_interrupt_completed on_data_received ep_id len d dev =
      let out = parent.interrupt_in d.ep_interrupt_in d.in_packet_size dev in
      if is_in ep_id
      then (
        on_data_received d,
        out.0,
        record d { previous_buf = copy_n len d.buf d.previous_buf },
        out.1,
      )
      else ([], not_implemented, d, dev)

-- `std::find(xs.begin(), xs.end(), key) != xs.end()`
abbrev pub contains : ℕ → List ℕ → Bool
contains key [] = false
contains key (x ∷ xs) = (x == key) || contains key xs

-- The keys that the loop of `HIDKeyboardDriver::OnDataReceived` passes to `NotifyKeyPush`, from byte
-- `i` on, for `n` bytes.
unfoldable pub pushed_keys : ℕ → ℕ → List ℕ → List ℕ → List ℕ
pushed_keys i zero buf prev_buf = []
pushed_keys i (suc n) buf prev_buf =
    let key = get_or buf i 0 in
    let rest = pushed_keys (i + 1) n buf prev_buf in
    if key == 0 then rest else if contains key prev_buf then rest else key ∷ rest

-- `NotifyKeyPush`: the observers from `i` on, `n` of them, each with the key.
abbrev pub notify_key_push : ℕ → ℕ → ℕ → List (ℕ × ℕ)
notify_key_push i zero keycode = []
notify_key_push i (suc n) keycode = (i, keycode) ∷ notify_key_push (i + 1) n keycode

abbrev pub notify_all : ℕ → List ℕ → List (ℕ × ℕ)
notify_all num_observers [] = []
notify_all num_observers (key ∷ keys) =
    notify_key_push 0 num_observers key ++ notify_all num_observers keys

abbrev pub keyboard_data : Driver → List ℕ
keyboard_data d = pushed_keys 2 6 d.buf d.previous_buf

-- `HIDKeyboardDriver::OnDataReceived`
abbrev pub on_keyboard_data : ℕ → Driver → List (ℕ × ℕ)
on_keyboard_data num_observers d = notify_all num_observers (keyboard_data d)

-- The array has room for four observers; a fifth is written behind it, which is undefined.
unfoldable pub subscribe_key_push {ℓ} : {O : Type ℓ} → O → List O → Option (List O)
subscribe_key_push observer observers =
    if ltb (length observers) 4 then some (observers ++ (observer ∷ [])) else none
