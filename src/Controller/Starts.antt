-- ===== src/Controller/Starts.antt =====
-- A port that is connected gets as far as its slot, when the hardware ends the reset in time.
use mikanos_m1mac.Base.{ℕ, ◌<◌, ◌≡◌, true, false}
use mikanos_m1mac.Errors.{Code, success}
use mikanos_m1mac.Mmio.{Mmio, modify}
use mikanos_m1mac.Mmio.Laws.{after}
use mikanos_m1mac.Registers.PortStatus.{port_reset}
use mikanos_m1mac.Port.{reset_word, test_bit}
use mikanos_m1mac.Trb.{Trb}
use mikanos_m1mac.Trb.EnableSlotCommand as EnableSlotCommand
use mikanos_m1mac.Trb.PortStatusChangeEvent as PortStatusChangeEvent
use mikanos_m1mac.Ring.{push}
use mikanos_m1mac.Controller.{enabling_slot, Devices, State, Base, port_at, phase}

module _ {ℓ κ} {H : Type ℓ} {D : Type κ} (mmio : Mmio H) (ops : Devices D) (base : Base)
    (fuel : ℕ) where
  -- After the words that `Reset` writes, the port shows the reset for `k` reads and then no more.
  pub record Resets (n k : ℕ) (h : H) : Type 0 where
    pub in_time : k < fuel
    pub busy :
        (i : ℕ)
        → i < k
        → (test_bit mmio port_reset (port_at base n) (
            after
              (test_bit mmio port_reset (port_at base n))
              i
              (modify mmio reset_word (port_at base n) h))).0
          ≡ true
    pub over :
        (test_bit mmio port_reset (port_at base n) (
          after
            (test_bit mmio port_reset (port_at base n))
            k
            (modify mmio reset_word (port_at base n) h))).0
        ≡ false

  abbrev pub SlotEnabling : ℕ → State H D → Code × State H D → Type 0
  SlotEnabling n s r =
      (r.0 ≡ success)
      × (phase n r.1 ≡ enabling_slot)
      × (r.1.addressing_port ≡ n)
      × (r.1.command_ring ≡ (push EnableSlotCommand.new s.command_ring).1)
