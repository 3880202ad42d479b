-- ===== src/Trb/CommandCompletionEvent.antt =====
-- `CommandCompletionEventTRB` of kernel/usb/xhci/trb.hpp.
use mikanos_m1mac.Base.{ℕ, field}
use mikanos_m1mac.Trb.{Trb, of_type, pointer60, set_pointer60}

abbrev pub type : ℕ
type = 33

abbrev pub new : Trb
new = of_type type

abbrev pub pointer : Trb → ℕ
pointer = pointer60

abbrev pub set_pointer : ℕ → Trb → Trb
set_pointer = set_pointer60

abbrev pub completion_code : Trb → ℕ
completion_code t = field 24 8 t.d2

abbrev pub slot_id : Trb → ℕ
slot_id t = field 24 8 t.d3
