-- ===== src/Trb/EnableSlotCommand.antt =====
-- `EnableSlotCommandTRB` of kernel/usb/xhci/trb.hpp.
use mikanos_m1mac.Base.{ℕ}
use mikanos_m1mac.Trb.{Trb, of_type}

abbrev pub type : ℕ
type = 9

abbrev pub new : Trb
new = of_type type
