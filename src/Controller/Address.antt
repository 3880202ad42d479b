-- ===== src/Controller/Address.antt =====
-- `AddressDevice`, `InitializeDevice` and `CompleteConfiguration`.
use mikanos_m1mac.Base.{ℕ, ◌+◌, ◌==◌, not, if◌then◌else◌, false}
use mikanos_m1mac.Errors.{Code, success, invalid_slot_id}
use mikanos_m1mac.Outcome.{Outcome, returned, ◌>>=◌}
use mikanos_m1mac.Mmio.{Mmio, read_field, element}
use mikanos_m1mac.Registers.Capability.{dboff, doorbell_offset}
use mikanos_m1mac.Registers.Interrupter.{doorbell_size}
use mikanos_m1mac.Port.{speed}
use mikanos_m1mac.Context.{
  Words, InputContext, clear_control, enable_slot_context, enable_endpoint, update_slot,
  update_endpoint, device_context_index, slot_speed, set_route_string, set_slot_speed,
  set_context_entries, set_root_hub_port_num, set_mult, set_max_primary_streams, set_ep_interval,
  set_error_count, set_ep_type, set_max_burst_size, set_max_packet_size, set_dequeue_cycle_state,
  set_transfer_ring_buffer,
}
use mikanos_m1mac.Trb.AddressDeviceCommand as AddressDeviceCommand
use mikanos_m1mac.Controller.{
  addressing_device, initializing_device, configured, Devices, State, Base, port_at, set_phase,
  send_command,
}

unfoldable pub initialize_slot_context : ℕ → ℕ → Words → Words
initialize_slot_context port_num port_speed c =
    set_slot_speed port_speed
      (set_context_entries 1 (set_root_hub_port_num port_num (set_route_string 0 c)))

abbrev pub determine_max_packet_size_for_control_pipe : ℕ → ℕ
determine_max_packet_size_for_control_pipe slot_speed =
    if slot_speed == 4 then 512 else if slot_speed == 3 then 64 else 8

unfoldable pub initialize_ep0_context : ℕ → ℕ → Words → Words
initialize_ep0_context buffer size c = set_error_count 3 (
    set_mult 0 (
      set_max_primary_streams 0 (
        set_ep_interval 0 (
          set_dequeue_cycle_state 1 (
            set_transfer_ring_buffer buffer
              (set_max_burst_size 0 (set_max_packet_size size (set_ep_type 4 c))))))))

abbrev pub ep0_dci : ℕ
ep0_dci = device_context_index 0 false

module _ {ℓ κ} {H : Type ℓ} {D : Type κ} (mmio : Mmio H) (ops : Devices D) (base : Base) where
  -- The input context of the device in a slot, read and written.
  abbrev pub change_input : ℕ → (InputContext → InputContext) → State H D → State H D
  change_input slot_id f s = record s {
    devices = ops.set_input_context slot_id (f (ops.input_context slot_id s.devices)) s.devices;
  }

  -- The first calls: the device, and its slot context with the port's number and speed.
  unfoldable pub prepare_slot : ℕ → ℕ → State H D → State H D
  prepare_slot port_id slot_id s =
      let port_speed = speed mmio (port_at base port_id) s.hardware in
      change_input slot_id
        (λ c.
          update_slot (initialize_slot_context port_id port_speed.0)
            (enable_endpoint ep0_dci (enable_slot_context (clear_control c))))
        (record s { hardware = port_speed.1 })

  -- The default control pipe, with a ring of its own.
  unfoldable pub prepare_ep0 : ℕ → State H D → Outcome (State H D)
  prepare_ep0 slot_id s =
      let size =
        determine_max_packet_size_for_control_pipe
          (slot_speed (ops.input_context slot_id s.devices).slot_context) in
      ops.alloc_transfer_ring slot_id ep0_dci 32 s.devices >>= λ ring. returned (
        change_input slot_id (update_endpoint ep0_dci (initialize_ep0_context ring.0 size))
          (record s { devices = ring.1 }))

  -- The command to the host controller.
  abbrev pub send_address : ℕ → ℕ → State H D → State H D
  send_address port_id slot_id s =
      send_command mmio base
        (AddressDeviceCommand.new (ops.input_address slot_id s.devices) slot_id)
        (set_phase port_id addressing_device s)

  -- `xhc.DoorbellRegisterAt(slot_id)`, which `AllocDevice` is passed.
  abbrev pub doorbell_at : ℕ → H → ℕ × H
  doorbell_at slot_id h =
      let offset = read_field mmio doorbell_offset (base.mmio_base + dboff) h in
      (element (base.mmio_base + offset.0) doorbell_size slot_id, offset.1)

  -- The errors of `AllocDevice` and of `LoadDCBAA` are not looked at.
  unfoldable pub address_device : ℕ → ℕ → State H D → Outcome (Code × State H D)
  address_device port_id slot_id s =
      let doorbell = doorbell_at slot_id s.hardware in
      ops.alloc_device slot_id doorbell.0 s.devices >>= λ made.
      let s1 : State H D = record s { hardware = doorbell.1; devices = made.1 } in
      if not (ops.has_slot slot_id s1.devices)
      then returned (invalid_slot_id, s1)
      else (prepare_ep0 slot_id (prepare_slot port_id slot_id s1) >>= λ s2.
          ops.load_dcbaa slot_id s2.devices >>= λ loaded.
          returned (success, send_address port_id slot_id (record s2 { devices = loaded.1 })))

  -- The error of `StartInitialize` is not looked at.
  unfoldable pub initialize_device : ℕ → ℕ → State H D → Outcome (Code × State H D)
  initialize_device port_id slot_id s =
      if not (ops.has_slot slot_id s.devices)
      then returned (invalid_slot_id, s)
      else (ops.start_initialize slot_id s.devices >>= λ started.
          returned
            (success, record (set_phase port_id initializing_device s) { devices = started.1 }))

  -- Nor is that of `OnEndpointsConfigured`.
  unfoldable pub complete_configuration : ℕ → ℕ → State H D → Outcome (Code × State H D)
  complete_configuration port_id slot_id s =
      if not (ops.has_slot slot_id s.devices)
      then returned (invalid_slot_id, s)
      else (ops.on_endpoints_configured slot_id s.devices >>= λ done.
          returned (success, set_phase port_id configured (record s { devices = done.1 })))
