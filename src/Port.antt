-- ===== src/Port.antt =====
-- kernel/usb/xhci/port.hpp and port.cpp: a port of the root hub, by the address of its PORTSC.
pub mod Laws
mod Examples
use mikanos_m1mac.Base.{ℕ, ◌+◌, ◌*◌, ◌/◌, ◌%◌, ◌^◌, ◌==◌, Bool, bit_and, bit_or}
use mikanos_m1mac.Outcome.{Outcome}
use mikanos_m1mac.Mmio.{Mmio, read_field, modify, spin}
use mikanos_m1mac.Registers.PortStatus.{
  current_connect_status, port_enabled_disabled, port_reset, port_speed, connect_status_change,
  port_reset_change, set_connect_status_change, set_port_reset_change,
}

-- The words that `Reset` and `CLEAR_STATUS_BIT` write back.
abbrev pub reset_word : ℕ → ℕ
reset_word portsc = bit_or (bit_and portsc 0x0e00c3e0) 0x00020010

abbrev pub clear_word : (ℕ → ℕ → ℕ) → ℕ → ℕ
clear_word set_bit portsc = set_bit 1 (bit_and portsc 0x0e01c3e0)

module _ {ℓ} {H : Type ℓ} (mmio : Mmio H) where
  abbrev pub test_bit : (ℕ → ℕ) → ℕ → H → Bool × H
  test_bit get portsc h = let r = read_field mmio get portsc h in (r.0 == 1, r.1)

  abbrev pub is_connected : ℕ → H → Bool × H
  is_connected = test_bit current_connect_status

  abbrev pub is_enabled : ℕ → H → Bool × H
  is_enabled = test_bit port_enabled_disabled

  abbrev pub is_connect_status_changed : ℕ → H → Bool × H
  is_connect_status_changed = test_bit connect_status_change

  abbrev pub is_port_reset_changed : ℕ → H → Bool × H
  is_port_reset_changed = test_bit port_reset_change

  abbrev pub speed : ℕ → H → ℕ × H
  speed = read_field mmio port_speed

  -- The reset is over when the bit reads 0.
  unfoldable pub reset : ℕ → ℕ → H → Outcome H
  reset fuel portsc h = spin fuel (test_bit port_reset portsc) (modify mmio reset_word portsc h)

  unfoldable pub clear_connect_status_changed : ℕ → H → H
  clear_connect_status_changed = modify mmio (clear_word set_connect_status_change)

  unfoldable pub clear_port_reset_change : ℕ → H → H
  clear_port_reset_change = modify mmio (clear_word set_port_reset_change)
