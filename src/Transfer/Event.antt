-- ===== src/Transfer/Event.antt =====
-- `OnTransferEventReceived` of kernel/usb/xhci/device.cpp. A transferred length is what the
-- subtraction on 32 bits gives.
use mikanos_m1mac.Base.{
  ℕ, Bool, ◌+◌, ◌-◌, ◌^◌, ◌==◌, ◌||◌, not, if◌then◌else◌, none, some, u32, nat_Eq,
}
use mikanos_m1mac.Errors.{Code, transfer_failed, no_corresponding_setup_stage, not_implemented}
use mikanos_m1mac.Trb.{Trb, trb_type}
use mikanos_m1mac.Trb.SetupStage as SetupStage
use mikanos_m1mac.Trb.DataStage as DataStage
use mikanos_m1mac.Trb.StatusStage as StatusStage
use mikanos_m1mac.Trb.Normal as Normal
use mikanos_m1mac.Trb.TransferEvent as TransferEvent
use mikanos_m1mac.ArrayMap.{get, delete}
use mikanos_m1mac.SetupData.{SetupData}
use mikanos_m1mac.Transfer.{Device}

-- `OnControlCompleted` and `OnInterruptCompleted` of `usb::Device`: the endpoint, the request, the
-- buffer, the transferred length and the device.
pub record Completions : Type 0 where
  pub on_control : ℕ → SetupData → ℕ → ℕ → Device → Code × Device
  pub on_interrupt : ℕ → ℕ → ℕ → Device → Code × Device

-- The request that a setup stage carries.
unfoldable pub setup_data_of : Trb → SetupData
setup_data_of t = record {
  request_type = SetupStage.request_type t;
  request = SetupStage.request t;
  value = SetupStage.value t;
  index = SetupStage.index t;
  length = SetupStage.length t;
}

abbrev pub minus32 : ℕ → ℕ → ℕ
minus32 a b = u32 (a + 2 ^ 32 - b)

abbrev pub is_completed : ℕ → Bool
is_completed code = (code == 1) || (code == 13)

module _ (load : ℕ → Trb) (completions : Completions) where
  -- The control transfer whose setup stage is at `setup`.
  unfoldable pub complete_control : Trb → Trb → Trb → Device → Code × Device
  complete_control trb issuer setup dev =
      if DataStage.type == trb_type issuer
      then completions.on_control (TransferEvent.endpoint_id trb) (setup_data_of setup)
          (DataStage.pointer issuer)
          (minus32 (DataStage.trb_transfer_length issuer) (TransferEvent.trb_transfer_length trb))
          dev
      else if StatusStage.type == trb_type issuer
      then completions.on_control (TransferEvent.endpoint_id trb) (setup_data_of setup) 0 0 dev
      else (not_implemented, dev)

  unfoldable pub on_transfer_event : Trb → Device → Code × Device
  on_transfer_event trb dev =
      let issuer_trb = TransferEvent.pointer trb in
      let issuer = load issuer_trb in
      if not (is_completed (TransferEvent.completion_code trb))
      then (transfer_failed, dev)
      else if Normal.type == trb_type issuer
      then completions.on_interrupt (TransferEvent.endpoint_id trb) (Normal.pointer issuer)
          (minus32 (Normal.trb_transfer_length issuer) (TransferEvent.trb_transfer_length trb)) dev
      else elim (get issuer_trb dev.setup_stage_map) [
        | none ↦ (no_corresponding_setup_stage, dev)
        | some setup ↦
            complete_control trb issuer (load setup)
              (record dev { setup_stage_map = delete issuer_trb dev.setup_stage_map })
      ]
