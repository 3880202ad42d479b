-- ===== src/Controller/Endpoints.antt =====
-- `ConfigureEndpoints`, with `MostSignificantBit` and the table of xhci/speed.hpp. An `int` is its word
-- of 32 bits.
use mikanos_m1mac.Base.{
  ℕ, zero, suc, ◌+◌, ◌-◌, ◌/◌, ◌%◌, ◌^◌, u32, ◌==◌, ltb, ◌||◌, if◌then◌else◌, Bool, true, false,
  List, [], ◌∷◌,
}
use mikanos_m1mac.Errors.{Code, success, unknown_xhci_speed_id}
use mikanos_m1mac.Outcome.{Outcome, returned, undefined, ◌>>=◌}
use mikanos_m1mac.Mmio.{Mmio}
use mikanos_m1mac.Port.{speed}
use mikanos_m1mac.Endpoint.{
  EndpointType, control, isochronous, bulk, interrupt, is_in, EndpointConfig,
}
use mikanos_m1mac.Context.{
  Words, InputContext, clear_control, enable_slot_context, enable_endpoint, update_slot,
  update_endpoint, root_hub_port_num, set_context_entries, set_mult, set_max_primary_streams,
  set_ep_interval, set_error_count, set_ep_type, set_max_packet_size, set_dequeue_cycle_state,
  set_transfer_ring_buffer, set_average_trb_length,
}
use mikanos_m1mac.Trb.ConfigureEndpointCommand as ConfigureEndpointCommand
use mikanos_m1mac.Controller.{
  configuring_endpoints, Devices, State, Base, port_at, set_phase, send_command,
}
use mikanos_m1mac.Controller.Address.{change_input}

abbrev pub full_speed : ℕ
full_speed = 1

abbrev pub low_speed : ℕ
low_speed = 2

abbrev pub super_speed_plus : ℕ
super_speed_plus = 5

-- The `bsr` instruction on the low `n` bits: the index of the highest bit that is set.
unfoldable pub bsr : ℕ → ℕ → ℕ
bsr zero value = 0
bsr (suc n) value = let rest = bsr n value in if value / 2 ^ n % 2 == 1 then n else rest

abbrev pub most_significant_bit : ℕ → ℕ
most_significant_bit value = if value == 0 then 2 ^ 32 - 1 else bsr 32 value

abbrev pub is_isochronous : EndpointType → Bool
is_isochronous isochronous = true
is_isochronous t = false

unfoldable pub convert_interval : ℕ → EndpointType → ℕ → ℕ
convert_interval port_speed type interval =
    if (port_speed == full_speed) || (port_speed == low_speed)
    then if is_isochronous type then u32 (interval + 2) else u32 (most_significant_bit interval + 3)
    else u32 (interval + (2 ^ 32 - 1))

-- The context's code for a type and a direction.
abbrev pub ep_type_code : EndpointType → Bool → ℕ
ep_type_code control in_dir = 4
ep_type_code isochronous in_dir = if in_dir then 5 else 1
ep_type_code bulk in_dir = if in_dir then 6 else 2
ep_type_code interrupt in_dir = if in_dir then 7 else 3

-- The fields that are written before the ring is made, and those after it.
unfoldable pub describe_endpoint : ℕ → EndpointConfig → Words → Words
describe_endpoint port_speed config c = set_average_trb_length 1 (
    set_ep_interval (convert_interval port_speed config.ep_type config.interval) (
      set_max_packet_size config.max_packet_size
        (set_ep_type (ep_type_code config.ep_type (is_in config.ep_id)) c)))

unfoldable pub attach_ring : ℕ → Words → Words
attach_ring buffer c = set_error_count 3 (
    set_mult 0
      (set_max_primary_streams 0 (set_dequeue_cycle_state 1 (set_transfer_ring_buffer buffer c))))

unfoldable pub initialize_input : Words → InputContext → InputContext
initialize_input slot_context c =
    update_slot (set_context_entries 31)
      (enable_slot_context (update_slot (λ _. slot_context) (clear_control c)))

-- `port_speed == 0 || port_speed > kSuperSpeedPlus`
abbrev pub is_unknown_speed : ℕ → Bool
is_unknown_speed port_speed = (port_speed == 0) || ltb super_speed_plus port_speed

module _ {ℓ κ} {H : Type ℓ} {D : Type κ} (mmio : Mmio H) (ops : Devices D) (base : Base) where
  -- The body of the loop: there are 31 endpoint contexts, from index 1 on.
  unfoldable pub configure_endpoint : ℕ → ℕ → EndpointConfig → State H D → Outcome (State H D)
  configure_endpoint slot_id port_speed config s =
      let ep_dci = config.ep_id in
      if (ep_dci == 0) || ltb 31 ep_dci
      then undefined
      else (let s1 =
            change_input mmio ops base slot_id
              (λ c.
                update_endpoint ep_dci (describe_endpoint port_speed config)
                  (enable_endpoint ep_dci c))
              s in
          ops.alloc_transfer_ring slot_id ep_dci 32 s1.devices >>= λ ring. returned (
            change_input mmio ops base slot_id (update_endpoint ep_dci (attach_ring ring.0))
              (record s1 { devices = ring.1 })))

  unfoldable pub configure_each : ℕ → ℕ → List EndpointConfig → State H D → Outcome (State H D)
  configure_each slot_id port_speed [] s = returned s
  configure_each slot_id port_speed (config ∷ configs) s =
      configure_endpoint slot_id port_speed config s >>= configure_each slot_id port_speed configs

  -- The command to the host controller.
  abbrev pub send_configure : ℕ → ℕ → State H D → State H D
  send_configure port_id slot_id s =
      send_command mmio base
        (ConfigureEndpointCommand.new (ops.input_address slot_id s.devices) slot_id)
        (set_phase port_id configuring_endpoints s)

  unfoldable pub configure_endpoints : ℕ → State H D → Outcome (Code × State H D)
  configure_endpoints slot_id s =
      let port_id = root_hub_port_num (ops.slot_context slot_id s.devices) in
      let s1 =
        change_input mmio ops base slot_id (initialize_input (ops.slot_context slot_id s.devices))
          s in
      let port_speed = speed mmio (port_at base port_id) s1.hardware in
      let s2 : State H D = record s1 { hardware = port_speed.1 } in
      if is_unknown_speed port_speed.0
      then returned (unknown_xhci_speed_id, s2)
      else (configure_each slot_id port_speed.0 (ops.endpoint_configs slot_id s.devices) s2
          >>= λ s3. returned (success, send_configure port_id slot_id s3))
