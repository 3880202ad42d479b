-- ===== src/Port/Laws.antt =====
-- The words that are written to PORTSC, and the loop of `Reset`.
use mikanos_m1mac.Base.{
  ℕ, field, ◌+◌, ◌*◌, ◌/◌, ◌%◌, ◌^◌, ◌≡◌, refl, min, max, bit_and, bit_or, arith,
}
use mikanos_m1mac.Base.Bits.{bit, bit-bit_and, bit-bit_or}
use mikanos_m1mac.Registers.PortStatus.{
  port_enabled_disabled, port_reset, port_link_state, port_power, port_indicator_control,
  connect_status_change, port_enabled_disabled_change, warm_port_reset_change, over_current_change,
  port_reset_change, port_link_state_change, port_config_error_change, wake_enables,
}
use mikanos_m1mac.Port.{reset_word}

masked :
    (i w mask one : ℕ)
    → bit i (bit_or (bit_and w mask) one) ≡ max (min (bit i w) (bit i mask)) (bit i one)
masked i w mask one = rw (bit-bit_or i (bit_and w mask) one, bit-bit_and i w mask) refl

-- Fields by their bits.
four_bits : (x : ℕ) → x % 16 ≡ x % 2 + 2 * (x / 2 % 2) + 4 * (x / 4 % 2) + 8 * (x / 8 % 2)
four_bits x = omega arith

link_state_bits : (w : ℕ) → field 5 4 w ≡ bit 5 w + 2 * bit 6 w + 4 * bit 7 w + 8 * bit 8 w
link_state_bits w = omega (arith, four_bits (w / 2 ^ 5))

indicator_bits : (w : ℕ) → field 14 2 w ≡ bit 14 w + 2 * bit 15 w
indicator_bits w = omega arith

wake_bits : (w : ℕ) → field 25 3 w ≡ bit 25 w + 2 * bit 26 w + 4 * bit 27 w
wake_bits w = omega arith

-- What `Reset` writes starts the reset and clears the change of the connection. It does not disable
-- the port (a 1 would) and clears no other change, and it keeps the power, the link state, the
-- indicators and the wake bits.
pub reset_word-fields :
    (w : ℕ)
    → let v = reset_word w in
      (port_reset v ≡ 1)
      × (connect_status_change v ≡ 1)
      × (port_enabled_disabled v ≡ 0)
      × (port_enabled_disabled_change v ≡ 0)
      × (warm_port_reset_change v ≡ 0)
      × (over_current_change v ≡ 0)
      × (port_reset_change v ≡ 0)
      × (port_link_state_change v ≡ 0)
      × (port_config_error_change v ≡ 0)
      × (port_power v ≡ port_power w)
      × (port_link_state v ≡ port_link_state w)
      × (port_indicator_control v ≡ port_indicator_control w)
      × (wake_enables v ≡ wake_enables w)
reset_word-fields w = (
  omega (arith, go 4),
  omega (arith, go 17),
  omega (arith, go 1),
  omega (arith, go 18),
  omega (arith, go 19),
  omega (arith, go 20),
  omega (arith, go 21),
  omega (arith, go 22),
  omega (arith, go 23),
  omega (arith, go 9),
  omega (arith, link_state_bits w, link_state_bits (reset_word w), go 5, go 6, go 7, go 8),
  omega (arith, indicator_bits w, indicator_bits (reset_word w), go 14, go 15),
  omega (arith, wake_bits w, wake_bits (reset_word w), go 25, go 26, go 27),
)
  where
    go : (i : ℕ) → bit i (reset_word w) ≡ max (min (bit i w) (bit i 0x0e00c3e0)) (bit i 0x00020010)
    go i = masked i w 0x0e00c3e0 0x00020010
