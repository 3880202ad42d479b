-- ===== src/Pci/Address.antt =====
-- The layout of the value that `MakeAddress` builds.
use mikanos_m1mac.Base.{ℕ, ◌+◌, ◌*◌, ◌/◌, ◌^◌, ◌<◌, ◌≡◌, bit_and, field, arith}
use mikanos_m1mac.Base.Bits.{bit_or_disjoint, bit_and-high_mask}
use mikanos_m1mac.Pci.{make_address}

-- The low two bits of a register address are dropped.
register_bits : (r : ℕ) → r < 256 → bit_and r 0xfc ≡ r / 4 * 4
register_bits r h = bit_and-high_mask 6 2 r (omega arith)

module _ (bus device function reg_addr : ℕ) (hb : bus < 256) (hd : device < 32) (hf : function < 8)
    (hr : reg_addr < 256) where
  -- The five parts do not overlap.
  make_address-sum :
      make_address bus device function reg_addr
      ≡ 2 ^ 31 + bus * 2 ^ 16 + device * 2 ^ 11 + function * 2 ^ 8 + reg_addr / 4 * 4
  unfolding make_address
  make_address-sum = ground (
    arith,
    register_bits reg_addr hr,
    bit_or_disjoint 31 1 (bus * 2 ^ 16),
    bit_or_disjoint 16 (2 ^ 15 + bus) (device * 2 ^ 11),
    bit_or_disjoint 11 (2 ^ 20 + bus * 2 ^ 5 + device) (function * 2 ^ 8),
    bit_or_disjoint 8 (2 ^ 23 + bus * 2 ^ 8 + device * 2 ^ 3 + function) (reg_addr / 4 * 4),
  )

  -- CONFIG_ADDRESS has the enable bit, and the bus, the device, the function and the register that
  -- were asked for in their fields; the low two bits of the register are dropped.
  make_address_fields :
      (field 31 1 (make_address bus device function reg_addr) ≡ 1)
      × (field 16 8 (make_address bus device function reg_addr) ≡ bus)
      × (field 11 5 (make_address bus device function reg_addr) ≡ device)
      × (field 8 3 (make_address bus device function reg_addr) ≡ function)
      × (field 0 8 (make_address bus device function reg_addr) ≡ reg_addr / 4 * 4)
      × (make_address bus device function reg_addr < 2 ^ 32)
  make_address_fields = omega (arith, make_address-sum)
