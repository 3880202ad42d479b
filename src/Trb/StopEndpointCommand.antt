-- ===== src/Trb/StopEndpointCommand.antt =====
-- `StopEndpointCommandTRB` of kernel/usb/xhci/trb.hpp.
use mikanos_m1mac.Base.{ℕ, field, set_field}
use mikanos_m1mac.Trb.{Trb, of_type}

abbrev pub type : ℕ
type = 15

abbrev pub endpoint_id : Trb → ℕ
endpoint_id t = field 16 5 t.d3

abbrev pub set_endpoint_id : ℕ → Trb → Trb
set_endpoint_id v t = record t { d3 = set_field 16 5 v t.d3 }

abbrev pub slot_id : Trb → ℕ
slot_id t = field 24 8 t.d3

abbrev pub set_slot_id : ℕ → Trb → Trb
set_slot_id v t = record t { d3 = set_field 24 8 v t.d3 }

abbrev pub new : ℕ → ℕ → Trb
new endpoint_id slot_id = set_slot_id slot_id (set_endpoint_id endpoint_id (of_type type))
