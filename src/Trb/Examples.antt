-- ===== src/Trb/Examples.antt =====
-- kernel/usb/xhci/trb.hpp: an address device command for slot 3.
use mikanos_m1mac.Base.{◌≡◌, refl}
use mikanos_m1mac.Trb.{Trb, trb_type}
use mikanos_m1mac.Trb.AddressDeviceCommand as AddressDevice

abbrev command : Trb
command = AddressDevice.new 0x1040 3

type_back : trb_type command ≡ 11
type_back = refl

pointer_back : AddressDevice.pointer command ≡ 0x1040
pointer_back = refl

slot_back : AddressDevice.slot_id command ≡ 3
slot_back = refl
