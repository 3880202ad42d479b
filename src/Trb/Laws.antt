-- ===== src/Trb/Laws.antt =====
-- What the constructors of kernel/usb/xhci/trb.hpp write, read back.
use mikanos_m1mac.Base.{ℕ, ◌%◌, ◌^◌, ◌<◌, ◌≡◌, arith}
use mikanos_m1mac.Trb.{IsWords, trb_type, cycle_bit}
use mikanos_m1mac.Trb.AddressDeviceCommand as AddressDevice

-- An aligned pointer below 2^64 and a slot number come back from the command that the constructor
-- builds.
pub address_device_fields :
    (input_context slot_id : ℕ)
    → input_context < 2 ^ 64
    → input_context % 16 ≡ 0
    → slot_id < 256
    → (trb_type (AddressDevice.new input_context slot_id) ≡ 11)
      × (AddressDevice.pointer (AddressDevice.new input_context slot_id) ≡ input_context)
      × (AddressDevice.slot_id (AddressDevice.new input_context slot_id) ≡ slot_id)
      × (cycle_bit (AddressDevice.new input_context slot_id) ≡ 0)
      × IsWords (AddressDevice.new input_context slot_id)
address_device_fields p i hp ha hi = (
  omega arith,
  omega arith,
  omega arith,
  omega arith,
  record { word0 = omega arith; word1 = omega arith; word2 = omega arith; word3 = omega arith },
)
