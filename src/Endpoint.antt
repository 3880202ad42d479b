-- ===== src/Endpoint.antt =====
-- kernel/usb/endpoint.hpp: endpoint numbers with a direction, and endpoint configurations. An
-- `EndpointID` is its address.
use mikanos_m1mac.Base.{ℕ, Bool, true, false, bool_bit, bit_or, bit_and, ◌==◌, not, ◌<<<◌, ◌>>>◌}

pub data EndpointType : Type 0 where
  control isochronous bulk interrupt : EndpointType

-- `EndpointID(int ep_num, bool dir_in)`
abbrev pub endpoint_id : ℕ → Bool → ℕ
endpoint_id ep_num dir_in = bit_or (ep_num <<< 1) (bool_bit dir_in)

-- `Number`
abbrev pub ep_number : ℕ → ℕ
ep_number addr = addr >>> 1

abbrev pub is_in : ℕ → Bool
is_in addr = not (bit_and addr 1 == 0)

abbrev pub default_control_pipe_id : ℕ
default_control_pipe_id = endpoint_id 0 true

pub record EndpointConfig : Type 0 where
  pub ep_id : ℕ
  pub ep_type : EndpointType
  pub max_packet_size : ℕ
  pub interval : ℕ

abbrev pub is_interrupt : EndpointType → Bool
is_interrupt interrupt = true
is_interrupt t = false
