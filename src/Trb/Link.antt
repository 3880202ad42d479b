-- ===== src/Trb/Link.antt =====
-- `LinkTRB` of kernel/usb/xhci/trb.hpp, which ends every ring.
use mikanos_m1mac.Base.{ℕ, field, set_field, Bool, bool_bit}
use mikanos_m1mac.Trb.{Trb, of_type, pointer60, set_pointer60}

abbrev pub type : ℕ
type = 6

abbrev pub pointer : Trb → ℕ
pointer = pointer60

abbrev pub set_pointer : ℕ → Trb → Trb
set_pointer = set_pointer60

abbrev pub new : ℕ → Trb
new ring_segment_pointer = set_pointer ring_segment_pointer (of_type type)

abbrev pub toggle_cycle : Trb → ℕ
toggle_cycle t = field 1 1 t.d3

abbrev pub set_toggle_cycle : Bool → Trb → Trb
set_toggle_cycle b t = record t { d3 = set_field 1 1 (bool_bit b) t.d3 }
