-- ===== src/Trb/NoOp.antt =====
-- `NoOpTRB` of kernel/usb/xhci/trb.hpp.
use mikanos_m1mac.Base.{ℕ}
use mikanos_m1mac.Trb.{Trb, of_type}

abbrev pub type : ℕ
type = 8

abbrev pub new : Trb
new = of_type type
