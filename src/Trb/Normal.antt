-- ===== src/Trb/Normal.antt =====
-- `NormalTRB` of kernel/usb/xhci/trb.hpp.
use mikanos_m1mac.Base.{ℕ, field, set_field, Bool, bool_bit}
use mikanos_m1mac.Trb.{Trb, of_type, parameter, set_parameter}

abbrev pub type : ℕ
type = 1

abbrev pub new : Trb
new = of_type type

abbrev pub pointer : Trb → ℕ
pointer = parameter

abbrev pub set_pointer : ℕ → Trb → Trb
set_pointer = set_parameter

abbrev pub trb_transfer_length : Trb → ℕ
trb_transfer_length t = field 0 17 t.d2

abbrev pub set_trb_transfer_length : ℕ → Trb → Trb
set_trb_transfer_length v t = record t { d2 = set_field 0 17 v t.d2 }

abbrev pub set_interrupt_on_short_packet : Bool → Trb → Trb
set_interrupt_on_short_packet b t = record t { d3 = set_field 2 1 (bool_bit b) t.d3 }

abbrev pub set_interrupt_on_completion : Bool → Trb → Trb
set_interrupt_on_completion b t = record t { d3 = set_field 5 1 (bool_bit b) t.d3 }
