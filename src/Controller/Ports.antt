-- ===== src/Controller/Ports.antt =====
-- `ResetPort`, `EnableSlot` and `ConfigurePort`.
use mikanos_m1mac.Base.{ℕ, ◌==◌, ◌&&◌, not, if◌then◌else◌, Bool, true, false}
use mikanos_m1mac.Errors.{Code, success, invalid_phase}
use mikanos_m1mac.Outcome.{Outcome, returned, ◌>>=◌}
use mikanos_m1mac.Mmio.{Mmio}
use mikanos_m1mac.Port.{
  is_connected, is_enabled, is_port_reset_changed, reset, clear_port_reset_change,
}
use mikanos_m1mac.Trb.EnableSlotCommand as EnableSlotCommand
use mikanos_m1mac.Controller.{
  ConfigPhase, not_connected, waiting_addressed, resetting_port, enabling_slot, State, Base,
  port_at, phase, set_phase, send_command,
}

abbrev pub is_not_connected : ConfigPhase → Bool
is_not_connected not_connected = true
is_not_connected p = false

abbrev pub is_waiting : ConfigPhase → Bool
is_waiting waiting_addressed = true
is_waiting p = false

abbrev pub is_resetting : ConfigPhase → Bool
is_resetting resetting_port = true
is_resetting p = false

module _ {ℓ κ} {H : Type ℓ} {D : Type κ} (mmio : Mmio H) (base : Base) (fuel : ℕ) where
  -- `port.Reset()`
  abbrev pub start_reset : ℕ → State H D → Outcome (Code × State H D)
  start_reset n s = reset mmio fuel (port_at base n) s.hardware >>= λ h.
      returned (success, record s { hardware = h })

  unfoldable pub reset_port : ℕ → State H D → Outcome (Code × State H D)
  reset_port n s =
      let connected = is_connected mmio (port_at base n) s.hardware in
      let s' : State H D = record s { hardware = connected.1 } in
      if not connected.0
      then returned (success, s')
      else if not (s.addressing_port == 0)
      then returned (success, set_phase n waiting_addressed s')
      else if not (is_not_connected (phase n s)) && not (is_waiting (phase n s))
      then returned (invalid_phase, s')
      else start_reset n (record (set_phase n resetting_port s') { addressing_port = n })

  unfoldable pub enable_slot : ℕ → State H D → Outcome (Code × State H D)
  enable_slot n s =
      let enabled = is_enabled mmio (port_at base n) s.hardware in
      let reset_completed = is_port_reset_changed mmio (port_at base n) enabled.1 in
      if enabled.0 && reset_completed.0
      then returned (
        success,
        send_command mmio base EnableSlotCommand.new (
            set_phase n enabling_slot (record s {
              hardware = clear_port_reset_change mmio (port_at base n) reset_completed.1;
            })),
      )
      else returned (success, record s { hardware = reset_completed.1 })

  unfoldable pub configure_port : ℕ → State H D → Outcome (Code × State H D)
  configure_port n s =
      if is_not_connected (phase n s) then reset_port n s else returned (success, s)
