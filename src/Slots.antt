-- ===== src/Slots.antt =====
-- kernel/usb/xhci/devmgr.cpp: the devices by slot. A device in the table is its address with the
-- members that the manager reads; the root hub port of a device is in its context, which the
-- controller writes, and so a parameter.
pub mod Laws
pub mod Tables
mod Examples
use mikanos_m1mac.Base.{
  ℕ, zero, suc, ◌+◌, ◌*◌, ltb, ◌==◌, if◌then◌else◌, Bool, true, false, Option, none, some, List, [],
  get_or, set, replicate,
}
use mikanos_m1mac.Errors.{Code, success, no_enough_memory, invalid_slot_id, already_allocated}
use mikanos_m1mac.Memory.{alloc_array}

-- `Device::State`
pub data State : Type 0 where
  invalid blank slot_assigning slot_assigned : State

abbrev pub same_state : State → State → Bool
same_state invalid invalid = true
same_state blank blank = true
same_state slot_assigning slot_assigning = true
same_state slot_assigned slot_assigned = true
same_state a b = false

pub record Device : Type 0 where
  pub address : ℕ
  pub slot_id : ℕ
  pub state : State

pub record DeviceManager : Type 0 where
  pub device_context_pointers : List ℕ
  pub max_slots : ℕ
  pub devices : List (Option Device)

module _ (memory_pool : ℕ) where
  -- After the allocation of the contexts: without one, `devices_` is an array that nothing has been
  -- written to, of the pool's zeros, and the other pointer is null, `[]`.
  unfoldable pub with_contexts : ℕ → DeviceManager → Option ℕ × ℕ → Code × DeviceManager × ℕ
  with_contexts max_slots dm (none, alloc_ptr) = (
    no_enough_memory,
    record {
      device_context_pointers = [];
      max_slots = max_slots;
      devices = replicate (max_slots + 1) none;
    },
    alloc_ptr,
  )
  with_contexts max_slots dm (some _, alloc_ptr) = (
    success,
    record {
      device_context_pointers = replicate (max_slots + 1) 0;
      max_slots = max_slots;
      devices = replicate (max_slots + 1) none;
    },
    alloc_ptr,
  )

  -- After the allocation of the devices: without one, `devices_` is null.
  unfoldable pub with_devices : ℕ → DeviceManager → Option ℕ × ℕ → Code × DeviceManager × ℕ
  with_devices max_slots dm (none, alloc_ptr) =
      (no_enough_memory, record dm { max_slots = max_slots; devices = [] }, alloc_ptr)
  with_devices max_slots dm (some _, alloc_ptr) =
      with_contexts max_slots dm (alloc_array memory_pool 8 (max_slots + 1) 64 4096 alloc_ptr)

  unfoldable pub initialize : ℕ → DeviceManager → ℕ → Code × DeviceManager × ℕ
  initialize max_slots dm alloc_ptr =
      with_devices max_slots dm (alloc_array memory_pool 8 (max_slots + 1) 0 0 alloc_ptr)

  -- `AllocDevice`, with `sizeof(Device)` as an argument; a device built at a null pointer, when the
  -- pool is empty, is undefined, here `none`.
  unfoldable pub alloc_device :
      ℕ → State → ℕ → DeviceManager → ℕ → Option (Code × DeviceManager × ℕ)
  alloc_device size_of state slot_id dm alloc_ptr =
      let memory = alloc_array memory_pool size_of 1 64 4096 alloc_ptr in
      if ltb dm.max_slots slot_id
      then some (invalid_slot_id, dm, alloc_ptr)
      else elim (get_or dm.devices slot_id none) [
        | some _ ↦ some (already_allocated, dm, alloc_ptr)
        | none ↦ elim memory.0 [
          | none ↦ none
          | some p ↦ some (
            success,
            record dm {
              devices =
                  set dm.devices slot_id
                    (some (record { address = p; slot_id = slot_id; state = state }));
            },
            memory.1,
          )
        ]
      ]

unfoldable pub find_by_slot : ℕ → DeviceManager → Option Device
find_by_slot slot_id dm = if ltb dm.max_slots slot_id then none else get_or dm.devices slot_id none

-- The loops of `FindByPort` and `FindByState`, from slot `i` on, for `n` slots.
unfoldable pub find_from : (Device → Bool) → ℕ → ℕ → List (Option Device) → Option Device
find_from wanted i zero devices = none
find_from wanted i (suc n) devices =
    let rest = find_from wanted (i + 1) n devices in
    elim (get_or devices i none) [ none ↦ rest | some dev ↦ if wanted dev then some dev else rest ]

unfoldable pub find_by_port : (ℕ → ℕ) → ℕ → DeviceManager → Option Device
find_by_port root_hub_port_num port_num dm =
    find_from (λ dev. root_hub_port_num dev.address == port_num) 1 dm.max_slots dm.devices

unfoldable pub find_by_state : State → DeviceManager → Option Device
find_by_state state dm = find_from (λ dev. same_state dev.state state) 1 dm.max_slots dm.devices

-- `LoadDCBAA`; `context` is the offset of the device's context. A free slot is a null pointer that
-- is followed, `none`.
unfoldable pub load_dcbaa : ℕ → ℕ → DeviceManager → Option (Code × DeviceManager)
load_dcbaa context slot_id dm =
    if ltb dm.max_slots slot_id
    then some (invalid_slot_id, dm)
    else elim (get_or dm.devices slot_id none) [
      | none ↦ none
      | some dev ↦ some (
        success,
        record dm {
          device_context_pointers = set dm.device_context_pointers slot_id (dev.address + context);
        },
      )
    ]

-- `Remove` has no test of the slot; a write behind the tables is undefined, and dropped here.
unfoldable pub remove : ℕ → DeviceManager → Code × DeviceManager
remove slot_id dm = (
  success,
  record dm {
    device_context_pointers = set dm.device_context_pointers slot_id 0;
    devices = set dm.devices slot_id none;
  },
)
