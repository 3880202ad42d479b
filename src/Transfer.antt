-- ===== src/Transfer.antt =====
-- kernel/usb/xhci/device.cpp: a USB device on the host controller, and its transfers. A pointer is
-- an address, 0 the null pointer; `load`, a parameter, is the memory that the controller and the
-- driver share, when an event is handled. What a completion calls in `usb::Device` is an interface.
pub mod Setup
pub mod Control
pub mod Event
pub mod Rings
mod Examples
use mikanos_m1mac.Base.{
  ℕ, ◌+◌, ◌-◌, ◌*◌, ◌/◌, ◌%◌, ◌^◌, ltb, ◌==◌, ◌&&◌, not, if◌then◌else◌, Bool, true, false, Option,
  none, some, List, [], ◌∷◌, get_or, set, Eq, nat_Eq, field, u8,
}
use mikanos_m1mac.Errors.{
  Code, success, is_error, invalid_endpoint_number, transfer_ring_not_set, transfer_failed,
  no_corresponding_setup_stage, not_implemented,
}
use mikanos_m1mac.Trb.{Trb, zero_trb, trb_type}
use mikanos_m1mac.Trb.SetupStage as SetupStage
use mikanos_m1mac.Trb.DataStage as DataStage
use mikanos_m1mac.Trb.StatusStage as StatusStage
use mikanos_m1mac.Trb.Normal as Normal
use mikanos_m1mac.Trb.TransferEvent as TransferEvent
use mikanos_m1mac.Ring.{Ring, push}
use mikanos_m1mac.ArrayMap.{Slot, get, put, delete}
use mikanos_m1mac.SetupData.{SetupData, setup_Eq}
use mikanos_m1mac.Endpoint.{ep_number}

unfoldable pub make_setup_stage_trb : SetupData → ℕ → Trb
make_setup_stage_trb setup_data transfer_type = SetupStage.set_transfer_type transfer_type (
    SetupStage.set_length setup_data.length (
      SetupStage.set_index setup_data.index (
        SetupStage.set_value setup_data.value (
          SetupStage.set_request setup_data.request
            (SetupStage.set_request_type setup_data.request_type SetupStage.new)))))

unfoldable pub make_data_stage_trb : ℕ → ℕ → Bool → Trb
make_data_stage_trb buf len dir_in = DataStage.set_direction dir_in (
    DataStage.set_td_size 0
      (DataStage.set_trb_transfer_length len (DataStage.set_pointer buf DataStage.new)))

-- `Device::State`.
pub data State : Type 0 where
  invalid blank slot_assigning slot_assigned : State

-- The state, and the members that the transfers use: `event_waiters_` of `usb::Device`, the transfer rings, the
-- map from the issuing TRB to its setup stage, and the targets that the doorbell was rung with, the
-- last one first.
pub record Device : Type 0 where
  pub state : State
  pub event_waiters : List (Slot SetupData ℕ)
  pub transfer_rings : List (Option Ring)
  pub setup_stage_map : List (Slot ℕ ℕ)
  pub doorbells : List ℕ

-- `Initialize`, whose loop has no statement in it.
unfoldable pub initialize : Device → Code × Device
initialize dev = (success, record dev { state = blank })

abbrev pub select_for_slot_assignment : Device → Device
select_for_slot_assignment dev = record dev { state = slot_assigning }

-- `usb::Device::ControlIn` and `ControlOut`: a class driver that issues a request waits for it.
abbrev pub wait : SetupData → ℕ → Device → Device
wait setup_data issuer dev =
    if issuer == 0
    then dev
    else record dev { event_waiters = put setup_data issuer dev.event_waiters }

-- `transfer_rings_[dci.value - 1]`; the address 0 would read in front of the array.
abbrev pub ring_at : ℕ → Device → Option Ring
ring_at dci dev = if dci == 0 then none else get_or dev.transfer_rings (dci - 1) none

-- The ring after the pushes, and the doorbell of the endpoint.
abbrev pub submit : ℕ → Ring → Device → Device
submit dci r dev = record dev {
  transfer_rings = set dev.transfer_rings (dci - 1) (some r);
  doorbells = u8 dci ∷ dev.doorbells;
}

-- `TRBDynamicCast` of a pointer: the pointer, if the type is the one asked for.
abbrev pub cast_pointer : ℕ → Trb → ℕ → ℕ
cast_pointer type t p = if type == trb_type t then p else 0

-- The setup stage on the ring, and the ring behind it.
abbrev pub push_setup : SetupData → ℕ → Ring → ℕ × Ring
push_setup setup_data transfer_type r =
    let out = push (make_setup_stage_trb setup_data transfer_type) r in
    (cast_pointer SetupStage.type (get_or out.1.mem r.write_index zero_trb) out.0, out.1)

-- `setup_stage_map_.Put`
abbrev pub remember : ℕ → ℕ → Device → Device
remember issuer_trb setup dev = record dev {
  setup_stage_map = put issuer_trb setup dev.setup_stage_map;
}

-- The transfer with a data stage: setup, data and status.
unfoldable pub with_data : SetupData → ℕ → Trb → Trb → ℕ → Ring → Device → Device
with_data setup_data transfer_type data_stage status dci r dev =
    let setup = push_setup setup_data transfer_type r in
    let position = push data_stage setup.1 in
    let rest = push status position.1 in submit dci rest.1 (remember position.0 setup.0 dev)

-- The transfer without one.
unfoldable pub without_data : SetupData → Trb → ℕ → Ring → Device → Device
without_data setup_data status dci r dev =
    let setup = push_setup setup_data SetupStage.no_data_stage r in
    let position = push status setup.1 in submit dci position.1 (remember position.0 setup.0 dev)

unfoldable pub control_in : ℕ → SetupData → ℕ → ℕ → ℕ → Device → Code × Device
control_in ep_id setup_data buf len issuer dev =
    let waiting = wait setup_data issuer dev in
    if ltb 15 (ep_number ep_id)
    then (invalid_endpoint_number, waiting)
    else elim (ring_at ep_id waiting) [
      | none ↦ (transfer_ring_not_set, waiting)
      | some r ↦
          if not (buf == 0)
          then (
            success,
            with_data setup_data SetupStage.in_data_stage
                (DataStage.set_interrupt_on_completion true (make_data_stage_trb buf len true))
                StatusStage.new ep_id r waiting,
          )
          else (
            success,
            without_data setup_data
                (StatusStage.set_interrupt_on_completion true
                  (StatusStage.set_direction true StatusStage.new))
                ep_id r waiting,
          )
    ]

unfoldable pub control_out : ℕ → SetupData → ℕ → ℕ → ℕ → Device → Code × Device
control_out ep_id setup_data buf len issuer dev =
    let waiting = wait setup_data issuer dev in
    let status = StatusStage.set_direction true StatusStage.new in
    if ltb 15 (ep_number ep_id)
    then (invalid_endpoint_number, waiting)
    else elim (ring_at ep_id waiting) [
      | none ↦ (transfer_ring_not_set, waiting)
      | some r ↦
          if not (buf == 0)
          then (
            success,
            with_data setup_data SetupStage.out_data_stage
                (DataStage.set_interrupt_on_completion true (make_data_stage_trb buf len false))
                status ep_id r waiting,
          )
          else (
            success,
            without_data setup_data (StatusStage.set_interrupt_on_completion true status) ep_id r
                waiting,
          )
    ]

unfoldable pub interrupt_in : ℕ → ℕ → ℕ → Device → Code × Device
interrupt_in ep_id buf len dev =
    let normal = Normal.set_interrupt_on_completion true (
      Normal.set_interrupt_on_short_packet true
        (Normal.set_trb_transfer_length len (Normal.set_pointer buf Normal.new))) in
    elim (ring_at ep_id dev) [
      | none ↦ (transfer_ring_not_set, dev)
      | some r ↦ (success, submit ep_id ((push normal r).1) dev)
    ]

unfoldable pub interrupt_out : Device → Code × Device
interrupt_out dev = (not_implemented, dev)
