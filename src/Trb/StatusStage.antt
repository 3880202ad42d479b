-- ===== src/Trb/StatusStage.antt =====
-- `StatusStageTRB` of kernel/usb/xhci/trb.hpp.
use mikanos_m1mac.Base.{ℕ, set_field, Bool, bool_bit}
use mikanos_m1mac.Trb.{Trb, of_type}

abbrev pub type : ℕ
type = 4

abbrev pub new : Trb
new = of_type type

abbrev pub set_direction : Bool → Trb → Trb
set_direction b t = record t { d3 = set_field 16 1 (bool_bit b) t.d3 }

abbrev pub set_interrupt_on_completion : Bool → Trb → Trb
set_interrupt_on_completion b t = record t { d3 = set_field 5 1 (bool_bit b) t.d3 }
