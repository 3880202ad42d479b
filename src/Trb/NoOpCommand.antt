-- ===== src/Trb/NoOpCommand.antt =====
-- `NoOpCommandTRB` of kernel/usb/xhci/trb.hpp.
use mikanos_m1mac.Base.{ℕ}
use mikanos_m1mac.Trb.{Trb, of_type}

abbrev pub type : ℕ
type = 23

abbrev pub new : Trb
new = of_type type
