-- ===== src/Trb/TransferEvent.antt =====
-- `TransferEventTRB` of kernel/usb/xhci/trb.hpp.
use mikanos_m1mac.Base.{ℕ, field}
use mikanos_m1mac.Trb.{Trb, of_type, parameter, set_parameter}

abbrev pub type : ℕ
type = 32

abbrev pub new : Trb
new = of_type type

abbrev pub pointer : Trb → ℕ
pointer = parameter

abbrev pub set_pointer : ℕ → Trb → Trb
set_pointer = set_parameter

abbrev pub trb_transfer_length : Trb → ℕ
trb_transfer_length t = field 0 24 t.d2

abbrev pub completion_code : Trb → ℕ
completion_code t = field 24 8 t.d2

abbrev pub event_data : Trb → ℕ
event_data t = field 2 1 t.d3

abbrev pub endpoint_id : Trb → ℕ
endpoint_id t = field 16 5 t.d3

abbrev pub slot_id : Trb → ℕ
slot_id t = field 24 8 t.d3
