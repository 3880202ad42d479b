-- ===== src/Trb/PortStatusChangeEvent.antt =====
-- `PortStatusChangeEventTRB` of kernel/usb/xhci/trb.hpp.
use mikanos_m1mac.Base.{ℕ, field}
use mikanos_m1mac.Trb.{Trb, of_type}

abbrev pub type : ℕ
type = 34

abbrev pub new : Trb
new = of_type type

abbrev pub port_id : Trb → ℕ
port_id t = field 24 8 t.d0

abbrev pub completion_code : Trb → ℕ
completion_code t = field 24 8 t.d2
