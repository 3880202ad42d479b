-- ===== src/Controller/Events.antt =====
-- The three `OnEvent` functions: what the driver does on an event of the host controller.
use mikanos_m1mac.Base.{
  ℕ, suc, ◌==◌, ◌&&◌, not, if◌then◌else◌, Bool, true, false, List, [], ◌∷◌, Option, none, some,
}
use mikanos_m1mac.Errors.{Code, success, is_error, invalid_slot_id, invalid_phase}
use mikanos_m1mac.Outcome.{Outcome, returned, ◌>>=◌}
use mikanos_m1mac.Mmio.{Mmio}
use mikanos_m1mac.Context.{root_hub_port_num}
use mikanos_m1mac.Trb.{Trb, trb_type}
use mikanos_m1mac.Trb.PortStatusChangeEvent as PortStatusChangeEvent
use mikanos_m1mac.Trb.TransferEvent as TransferEvent
use mikanos_m1mac.Trb.CommandCompletionEvent as CommandCompletionEvent
use mikanos_m1mac.Trb.EnableSlotCommand as EnableSlotCommand
use mikanos_m1mac.Trb.AddressDeviceCommand as AddressDeviceCommand
use mikanos_m1mac.Trb.ConfigureEndpointCommand as ConfigureEndpointCommand
use mikanos_m1mac.Controller.{
  ConfigPhase, enabling_slot, addressing_device, initializing_device, configuring_endpoints,
  Devices, State, Base, trb_at, phase,
}
use mikanos_m1mac.Controller.Ports.{
  is_not_connected, is_waiting, is_resetting, reset_port, enable_slot,
}
use mikanos_m1mac.Controller.Address.{address_device, initialize_device, complete_configuration}
use mikanos_m1mac.Controller.Endpoints.{configure_endpoints}

abbrev pub is_enabling : ConfigPhase → Bool
is_enabling enabling_slot = true
is_enabling p = false

abbrev pub is_addressing : ConfigPhase → Bool
is_addressing addressing_device = true
is_addressing p = false

abbrev pub is_initializing : ConfigPhase → Bool
is_initializing initializing_device = true
is_initializing p = false

abbrev pub is_configuring : ConfigPhase → Bool
is_configuring configuring_endpoints = true
is_configuring p = false

-- The first port, from number `i` on, that waits to be addressed.
unfoldable pub first_waiting : ℕ → List ConfigPhase → Option ℕ
first_waiting i [] = none
first_waiting i (p ∷ ps) =
    let rest = first_waiting (suc i) ps in if is_waiting p then some i else rest

module _ {ℓ κ} {H : Type ℓ} {D : Type κ} (mmio : Mmio H) (ops : Devices D) (base : Base)
    (fuel : ℕ) where
  abbrev pub port_of : ℕ → State H D → ℕ
  port_of slot_id s = root_hub_port_num (ops.slot_context slot_id s.devices)

  unfoldable pub on_port_status_change : Trb → State H D → Outcome (Code × State H D)
  on_port_status_change trb s =
      let port_id = PortStatusChangeEvent.port_id trb in
      if is_not_connected (phase port_id s)
      then reset_port mmio base fuel port_id s
      else if is_resetting (phase port_id s)
      then enable_slot mmio base fuel port_id s
      else returned (invalid_phase, s)

  -- What follows a transfer event that the device took without an error.
  unfoldable pub after_transfer : ℕ → State H D → Outcome (Code × State H D)
  after_transfer slot_id s =
      if ops.is_initialized slot_id s.devices && is_initializing (phase (port_of slot_id s) s)
      then configure_endpoints mmio ops base slot_id s
      else returned (success, s)

  unfoldable pub on_transfer : Trb → State H D → Outcome (Code × State H D)
  on_transfer trb s =
      let slot_id = TransferEvent.slot_id trb in
      if not (ops.has_slot slot_id s.devices)
      then returned (invalid_slot_id, s)
      else (ops.on_transfer_event slot_id trb s.devices >>= λ taken.
          let s' : State H D = record s { devices = taken.1 } in
          if is_error taken.0 then returned (taken.0, s') else after_transfer slot_id s')

  unfoldable pub reset_first : Option ℕ → State H D → Outcome (Code × State H D)
  reset_first none s = returned (success, s)
  reset_first (some i) s = reset_port mmio base fuel i s

  -- The loop over the ports: the first that waits is reset.
  unfoldable pub reset_waiting : State H D → Outcome (Code × State H D)
  reset_waiting s = reset_first (first_waiting 0 s.port_config_phase) s

  unfoldable pub on_slot_enabled : ℕ → State H D → Outcome (Code × State H D)
  on_slot_enabled slot_id s =
      if not (is_enabling (phase s.addressing_port s))
      then returned (invalid_phase, s)
      else address_device mmio ops base s.addressing_port slot_id s

  unfoldable pub on_device_addressed : ℕ → State H D → Outcome (Code × State H D)
  on_device_addressed slot_id s =
      let port_id = port_of slot_id s in
      if not (ops.has_slot slot_id s.devices)
      then returned (invalid_slot_id, s)
      else if not (port_id == s.addressing_port)
      then returned (invalid_phase, s)
      else if not (is_addressing (phase port_id s))
      then returned (invalid_phase, s)
      else (reset_waiting (record s { addressing_port = 0 }) >>= λ r.
          if is_error r.0 then returned r else initialize_device mmio ops base port_id slot_id r.1)

  unfoldable pub on_endpoints_configured : ℕ → State H D → Outcome (Code × State H D)
  on_endpoints_configured slot_id s =
      let port_id = port_of slot_id s in
      if not (ops.has_slot slot_id s.devices)
      then returned (invalid_slot_id, s)
      else if not (is_configuring (phase port_id s))
      then returned (invalid_phase, s)
      else complete_configuration mmio ops base port_id slot_id s

  -- The command that completed is read on the command ring.
  unfoldable pub on_command_completion : Trb → State H D → Outcome (Code × State H D)
  on_command_completion trb s =
      let issuer_type = trb_type (trb_at s.command_ring (CommandCompletionEvent.pointer trb)) in
      let slot_id = CommandCompletionEvent.slot_id trb in
      if issuer_type == EnableSlotCommand.type
      then on_slot_enabled slot_id s
      else if issuer_type == AddressDeviceCommand.type
      then on_device_addressed slot_id s
      else if issuer_type == ConfigureEndpointCommand.type
      then on_endpoints_configured slot_id s
      else returned (invalid_phase, s)
