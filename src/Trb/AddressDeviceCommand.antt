-- ===== src/Trb/AddressDeviceCommand.antt =====
-- `AddressDeviceCommandTRB` of kernel/usb/xhci/trb.hpp.
use mikanos_m1mac.Base.{ℕ, field, set_field}
use mikanos_m1mac.Trb.{Trb, of_type, pointer60, set_pointer60}

abbrev pub type : ℕ
type = 11

abbrev pub pointer : Trb → ℕ
pointer = pointer60

abbrev pub set_pointer : ℕ → Trb → Trb
set_pointer = set_pointer60

abbrev pub slot_id : Trb → ℕ
slot_id t = field 24 8 t.d3

abbrev pub set_slot_id : ℕ → Trb → Trb
set_slot_id v t = record t { d3 = set_field 24 8 v t.d3 }

abbrev pub new : ℕ → ℕ → Trb
new input_context slot_id = set_pointer input_context (set_slot_id slot_id (of_type type))
