-- ===== src/Context.antt =====
-- kernel/usb/xhci/context.hpp: slot, endpoint and input contexts. A context is its eight words.
pub mod Layout
use mikanos_m1mac.Base.{
  ℕ, ◌+◌, ◌-◌, ◌*◌, ◌/◌, ◌^◌, field, set_field, List, [], get_or, set, replicate, bit_or, u32,
  ◌<<<◌, ◌==◌, if◌then◌else◌, Bool, bool_bit,
}

abbrev pub Words : Type 0
Words = List ℕ

abbrev pub word : ℕ → Words → ℕ
word i c = get_or c i 0

-- A bit field of the word `i`.
abbrev pub get_bits : ℕ → ℕ → ℕ → Words → ℕ
get_bits i lo len c = field lo len (word i c)

abbrev pub set_bits : ℕ → ℕ → ℕ → ℕ → Words → Words
set_bits i lo len v c = set c i (set_field lo len v (word i c))

abbrev pub zero_words : Words
zero_words = replicate 8 0

-- The fields of `SlotContext` that the driver uses.
abbrev pub set_route_string : ℕ → Words → Words
set_route_string = set_bits 0 0 20

abbrev pub slot_speed : Words → ℕ
slot_speed = get_bits 0 20 4

abbrev pub set_slot_speed : ℕ → Words → Words
set_slot_speed = set_bits 0 20 4

abbrev pub context_entries : Words → ℕ
context_entries = get_bits 0 27 5

abbrev pub set_context_entries : ℕ → Words → Words
set_context_entries = set_bits 0 27 5

abbrev pub root_hub_port_num : Words → ℕ
root_hub_port_num = get_bits 1 16 8

abbrev pub set_root_hub_port_num : ℕ → Words → Words
set_root_hub_port_num = set_bits 1 16 8

-- The fields of `EndpointContext`.
abbrev pub set_mult : ℕ → Words → Words
set_mult = set_bits 0 8 2

abbrev pub set_max_primary_streams : ℕ → Words → Words
set_max_primary_streams = set_bits 0 10 5

abbrev pub ep_interval : Words → ℕ
ep_interval = get_bits 0 16 8

abbrev pub set_ep_interval : ℕ → Words → Words
set_ep_interval = set_bits 0 16 8

abbrev pub error_count : Words → ℕ
error_count = get_bits 1 1 2

abbrev pub set_error_count : ℕ → Words → Words
set_error_count = set_bits 1 1 2

abbrev pub ep_type : Words → ℕ
ep_type = get_bits 1 3 3

abbrev pub set_ep_type : ℕ → Words → Words
set_ep_type = set_bits 1 3 3

abbrev pub set_max_burst_size : ℕ → Words → Words
set_max_burst_size = set_bits 1 8 8

abbrev pub max_packet_size : Words → ℕ
max_packet_size = get_bits 1 16 16

abbrev pub set_max_packet_size : ℕ → Words → Words
set_max_packet_size = set_bits 1 16 16

abbrev pub dequeue_cycle_state : Words → ℕ
dequeue_cycle_state = get_bits 2 0 1

abbrev pub set_dequeue_cycle_state : ℕ → Words → Words
set_dequeue_cycle_state = set_bits 2 0 1

-- The 60-bit pointer over the words 2 and 3.
abbrev pub transfer_ring_buffer : Words → ℕ
transfer_ring_buffer c = field 4 60 (word 2 c + word 3 c * 2 ^ 32) * 2 ^ 4

abbrev pub set_transfer_ring_buffer : ℕ → Words → Words
set_transfer_ring_buffer p c =
    let w = set_field 4 60 (p / 2 ^ 4) (word 2 c + word 3 c * 2 ^ 32) in
    set (set c 2 (u32 w)) 3 (u32 (w / 2 ^ 32))

abbrev pub set_average_trb_length : ℕ → Words → Words
set_average_trb_length = set_bits 4 0 16

-- `DeviceContextIndex(int ep_num, bool dir_in)`; that of an `EndpointID` is its address.
abbrev pub device_context_index : ℕ → Bool → ℕ
device_context_index ep_num dir_in = 2 * ep_num + (if ep_num == 0 then 1 else bool_bit dir_in)

-- `InputControlContext` and the contexts behind it.
pub record InputContext : Type 0 where
  pub drop_context_flags : ℕ
  pub add_context_flags : ℕ
  pub configuration_value : ℕ
  pub interface_number : ℕ
  pub alternate_setting : ℕ
  pub slot_context : Words
  pub ep_contexts : List Words

-- `memset(&input_control_context, 0, sizeof(InputControlContext))`
abbrev pub clear_control : InputContext → InputContext
clear_control c = record c {
  drop_context_flags = 0;
  add_context_flags = 0;
  configuration_value = 0;
  interface_number = 0;
  alternate_setting = 0;
}

abbrev pub enable_slot_context : InputContext → InputContext
enable_slot_context c = record c { add_context_flags = bit_or c.add_context_flags 1 }

abbrev pub enable_endpoint : ℕ → InputContext → InputContext
enable_endpoint dci c = record c {
  add_context_flags = bit_or c.add_context_flags (u32 (1 <<< dci));
}

-- Writes through the pointers that the two return.
abbrev pub update_slot : (Words → Words) → InputContext → InputContext
update_slot f c = record c { slot_context = f c.slot_context }

abbrev pub update_endpoint : ℕ → (Words → Words) → InputContext → InputContext
update_endpoint dci f c = record c {
  ep_contexts = set c.ep_contexts (dci - 1) (f (get_or c.ep_contexts (dci - 1) []));
}
