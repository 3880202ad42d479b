-- ===== src/Controller.antt =====
-- kernel/usb/xhci/xhci.cpp: the driver of the host controller. The hardware is a `Mmio`, the device
-- objects are the interface `Devices`, and `port_config_phase` and `addressing_port` are part of the
-- state. An outcome without a result is a loop that the fuel did not end, or undefined behaviour.
pub mod Ports
pub mod Address
pub mod Endpoints
pub mod Events
pub mod Phases
pub mod Effects
pub mod Progress
pub mod Dispatch
pub mod Process
pub mod Handlers
pub mod Addressed
pub mod Bounds
pub mod Contexts
pub mod Waiting
pub mod Starts
pub mod Reachable
pub mod Startup
mod Examples
use mikanos_m1mac.Base.{
  ℕ, u64, ◌^◌, ◌+◌, ◌-◌, ◌*◌, ◌/◌, List, set, get_or, Bool, true, false, Option, ◌==◌, ltb,
  if◌then◌else◌,
}
use mikanos_m1mac.Errors.{Code}
use mikanos_m1mac.Outcome.{Outcome}
use mikanos_m1mac.Mmio.{Mmio, read_field, element}
use mikanos_m1mac.Registers.Capability.{dboff, doorbell_offset}
use mikanos_m1mac.Registers.PortStatus.{port_set_size}
use mikanos_m1mac.Registers.Interrupter.{doorbell_word, doorbell_size}
use mikanos_m1mac.Context.{Words, InputContext}
use mikanos_m1mac.Endpoint.{EndpointConfig}
use mikanos_m1mac.Trb.{Trb, zero_trb}
use mikanos_m1mac.Ring.{Ring, address, push}

pub data ConfigPhase : Type 0 where
  not_connected waiting_addressed resetting_port enabling_slot addressing_device initializing_device
        configuring_endpoints configured :
      ConfigPhase

-- What the driver calls of `DeviceManager` and, for the device in a slot, of `Device`. `D` is the
-- state of all devices, with the memory pool.
pub record Devices {ℓ} (D : Type ℓ) : Type ℓ where
  -- `AllocDevice`, with the address of the slot's doorbell; `FindBySlot`, as a test for null.
  pub alloc_device : ℕ → ℕ → D → Outcome (Code × D)
  pub has_slot : ℕ → D → Bool
  pub load_dcbaa : ℕ → D → Outcome (Code × D)
  -- `DeviceContext()->slot_context`, which the controller writes, and `InputContext()`.
  pub slot_context : ℕ → D → Words
  pub input_context : ℕ → D → InputContext
  pub set_input_context : ℕ → InputContext → D → D
  pub input_address : ℕ → D → ℕ
  -- `AllocTransferRing`, with the ring's `Buffer()`: a null ring is followed.
  pub alloc_transfer_ring : ℕ → ℕ → ℕ → D → Outcome (ℕ × D)
  pub start_initialize : ℕ → D → Outcome (Code × D)
  pub on_endpoints_configured : ℕ → D → Outcome (Code × D)
  pub on_transfer_event : ℕ → Trb → D → Outcome (Code × D)
  pub is_initialized : ℕ → D → Bool
  pub endpoint_configs : ℕ → D → List EndpointConfig

-- The members that events change. `command_ring` is `cr_`.
pub record State {ℓ κ} (H : Type ℓ) (D : Type κ) : Type (ℓ ⊔ κ) where
  pub hardware : H
  pub devices : D
  pub command_ring : Ring
  pub port_config_phase : List ConfigPhase
  pub addressing_port : ℕ

-- The addresses that the constructor finds: `mmio_base_`, and `op_` behind it.
pub record Base : Type 0 where
  pub mmio_base : ℕ
  pub op : ℕ

-- `PortAt(n)`, by its PORTSC; the index `port_num - 1` is a `size_t`.
abbrev pub port_at : Base → ℕ → ℕ
port_at base n = u64 (element (base.op + 0x400) port_set_size (u64 (n + (2 ^ 64 - 1))))

-- `TRB* p` that points into a ring; outside of the ring's memory it finds a TRB of zeros.
abbrev pub trb_at : Ring → ℕ → Trb
trb_at r p =
    if ltb p (address r.buf) then zero_trb else get_or r.mem ((p - address r.buf) / 16) zero_trb

module _ {ℓ κ} {H : Type ℓ} {D : Type κ} where
  abbrev pub phase : ℕ → State H D → ConfigPhase
  phase n s = get_or s.port_config_phase n not_connected

  abbrev pub set_phase : ℕ → ConfigPhase → State H D → State H D
  set_phase n p s = record s { port_config_phase = set s.port_config_phase n p }

  module _ (mmio : Mmio H) (base : Base) where
    -- `DoorbellRegisterAt(index)->Ring(target)`
    unfoldable pub ring_doorbell : ℕ → ℕ → State H D → State H D
    ring_doorbell index target s =
        let offset = read_field mmio doorbell_offset (base.mmio_base + dboff) s.hardware in
        record s {
          hardware =
              mmio.write (element (base.mmio_base + offset.0) doorbell_size index)
                (doorbell_word target 0) offset.1;
        }

    -- A command, and the doorbell of the host controller.
    unfoldable pub send_command : Trb → State H D → State H D
    send_command cmd s = ring_doorbell 0 0 (record s { command_ring = (push cmd s.command_ring).1 })
