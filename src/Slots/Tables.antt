-- ===== src/Slots/Tables.antt =====
-- The tables of the device manager through the calls of the driver.
use mikanos_m1mac.Base.{
  ℕ, ◌+◌, ◌≤◌, ◌≡◌, refl, sym, subst, ap, none-ne-some, ◌∙◌, ltb, Bool-cases, Option, Option-cases,
  none, some, get_or, get_or-replicate, set, length, length-set, length-replicate, get_or-set_self,
  get_or-set_ne, ℕ_discrete, inl, inr, arith,
}
use mikanos_m1mac.Errors.{Code, success}
use mikanos_m1mac.Slots.{
  State, Device, DeviceManager, initialize, with_devices, with_contexts, alloc_device, load_dcbaa,
  remove,
}
use mikanos_m1mac.Memory.{alloc_array}

-- Both tables have an entry for each slot and for the number 0, and a device stands at its own
-- number.
pub record IsTable (dm : DeviceManager) : Type 0 where
  pub devices_size : length dm.devices ≡ dm.max_slots + 1
  pub contexts_size : length dm.device_context_pointers ≡ dm.max_slots + 1
  pub numbered : (i : ℕ) (dev : Device) → get_or dm.devices i none ≡ some dev → dev.slot_id ≡ i

-- A call of the driver that changes the tables.
pub data Step (pool : ℕ) : DeviceManager → DeviceManager → Type 0 where
  allocated :
      {dm dm' : DeviceManager} {code : Code} (size_of : ℕ) (state : State) (slot_id v v' : ℕ)
      → alloc_device pool size_of state slot_id dm v ≡ some (code, dm', v')
      → Step pool dm dm'
  loaded :
      {dm dm' : DeviceManager} {code : Code} (context slot_id : ℕ)
      → load_dcbaa context slot_id dm ≡ some (code, dm')
      → Step pool dm dm'
  removed :
      {dm : DeviceManager} (slot_id : ℕ)
      → slot_id ≤ dm.max_slots
      → Step pool dm (remove slot_id dm).1

-- The number that the device in an entry has.
abbrev number_of : Option Device → ℕ
number_of none = 0
number_of (some dev) = dev.slot_id

with_device-IsTable :
    (slot_id : ℕ) (dev : Device) (dm : DeviceManager)
    → IsTable dm
    → slot_id ≤ dm.max_slots
    → dev.slot_id ≡ slot_id
    → IsTable (record dm { devices = set dm.devices slot_id (some dev) })
with_device-IsTable slot_id dev dm t inside same = record {
  devices_size = length-set dm.devices _ _ ∙ t.devices_size;
  contexts_size = t.contexts_size;
  numbered = λ i dev' e. elim (ℕ_discrete slot_id i) [
    | yes here ↦
        sym (
          ap number_of (
            sym (
              subst (λ j. get_or (set dm.devices slot_id (some dev)) j none ≡ some dev) here
                (get_or-set_self dm.devices slot_id (some dev) none
                  (omega (arith, t.devices_size, inside))))
            ∙ e))
        ∙ (same ∙ here)
    | no other ↦ t.numbered i dev' (sym (get_or-set_ne dm.devices slot_id i _ none other) ∙ e)
  ];
}

-- The tables after a call that may be undefined.
abbrev Kept {ℓ} : {A : Type ℓ} → (A → DeviceManager) → Option A → Type 0
Kept manager_of none = Unit
Kept manager_of (some a) = IsTable (manager_of a)

alloc_device-IsTable :
    (pool size_of : ℕ) (state : State) (slot_id : ℕ) (dm : DeviceManager) (v : ℕ)
    → IsTable dm
    → Kept (λ (code, dm', v'). dm') (alloc_device pool size_of state slot_id dm v)
unfolding alloc_device
alloc_device-IsTable pool size_of state slot_id dm v t =
    elim (Bool-cases (ltb dm.max_slots slot_id)) [
      | inl outside ↦ rw outside t
      | inr inside ↦ elim (Option-cases (get_or dm.devices slot_id none)) [
        | inr (dev, taken) ↦ rw (inside, taken) t
        | inl free ↦ elim (Option-cases (alloc_array pool size_of 1 64 4096 v).0) [
          | inl empty ↦ rw (inside, free, empty) tt
          | inr (p, block) ↦
              rw (inside, free, block) (with_device-IsTable slot_id _ dm t (ground arith) refl)
        ]
      ]
    ]

load_dcbaa-IsTable :
    (context slot_id : ℕ) (dm : DeviceManager)
    → IsTable dm
    → Kept (λ (code, dm'). dm') (load_dcbaa context slot_id dm)
unfolding load_dcbaa
load_dcbaa-IsTable context slot_id dm t = elim (Bool-cases (ltb dm.max_slots slot_id)) [
  | inl outside ↦ rw outside t
  | inr inside ↦ elim (Option-cases (get_or dm.devices slot_id none)) [
    | inl free ↦ rw (inside, free) tt
    | inr (dev, taken) ↦
        rw (inside, taken)
          (record {
            devices_size = t.devices_size;
            contexts_size = length-set dm.device_context_pointers _ _ ∙ t.contexts_size;
            numbered = t.numbered;
          })
  ]
]

remove-IsTable :
    (slot_id : ℕ) (dm : DeviceManager)
    → IsTable dm
    → slot_id ≤ dm.max_slots
    → IsTable (remove slot_id dm).1
unfolding remove
remove-IsTable slot_id dm t inside = record {
  devices_size = length-set dm.devices _ _ ∙ t.devices_size;
  contexts_size = length-set dm.device_context_pointers _ _ ∙ t.contexts_size;
  numbered = λ i dev' e. elim (ℕ_discrete slot_id i) [
    | yes here ↦ absurd (
        none-ne-some dev' (
          sym (
            subst (λ j. get_or (set dm.devices slot_id none) j none ≡ none) here
              (get_or-set_self dm.devices slot_id none none
                (omega (arith, t.devices_size, inside))))
          ∙ e))
    | no other ↦ t.numbered i dev' (sym (get_or-set_ne dm.devices slot_id i _ none other) ∙ e)
  ];
}

Step-IsTable : (pool : ℕ) {dm dm' : DeviceManager} → Step pool dm dm' → IsTable dm → IsTable dm'
Step-IsTable pool (allocated {dm = dm} size_of state slot_id v v' e) t =
    subst (Kept (λ (code, dm', v'). dm')) e (alloc_device-IsTable pool size_of state slot_id dm v t)
Step-IsTable pool (loaded {dm = dm} context slot_id e) t =
    subst (Kept (λ (code, dm'). dm')) e (load_dcbaa-IsTable context slot_id dm t)
Step-IsTable pool (removed {dm = dm} slot_id inside) t = remove-IsTable slot_id dm t inside

-- What a start leaves, when it succeeds.
abbrev Booted : Code × DeviceManager × ℕ → Type 0
Booted (success, dm, v) = IsTable dm
Booted (code, dm, v) = Unit

with_contexts-Booted :
    (pool n : ℕ) (dm : DeviceManager) (out : Option ℕ × ℕ) → Booted (with_contexts pool n dm out)
unfolding with_contexts
with_contexts-Booted pool n dm (none, v) = tt
with_contexts-Booted pool n dm (some _, v) = record {
  devices_size = length-replicate (n + 1) none;
  contexts_size = length-replicate (n + 1) 0;
  numbered = λ i dev e. absurd (none-ne-some dev (sym (get_or-replicate (n + 1) i none) ∙ e));
}

with_devices-Booted :
    (pool n : ℕ) (dm : DeviceManager) (out : Option ℕ × ℕ) → Booted (with_devices pool n dm out)
unfolding with_devices
with_devices-Booted pool n dm (none, v) = tt
with_devices-Booted pool n dm (some _, v) = with_contexts-Booted pool n dm _

initialize-Booted : (pool n : ℕ) (dm : DeviceManager) (v : ℕ) → Booted (initialize pool n dm v)
unfolding initialize
initialize-Booted pool n dm v = with_devices-Booted pool n dm _

-- The managers that a successful `Initialize` and then any steps lead to.
pub data Reached (pool : ℕ) : DeviceManager → Type 0 where
  booted :
      (dm : DeviceManager) {dm' : DeviceManager} (max_slots v v' : ℕ)
      → initialize pool max_slots dm v ≡ (success, dm', v')
      → Reached pool dm'
  stepped : {dm dm' : DeviceManager} → Reached pool dm → Step pool dm dm' → Reached pool dm'

-- After a successful `Initialize` and any calls of `AllocDevice`, `LoadDCBAA` and `Remove`, those of
-- `Remove` for slots in range, both tables have an entry for each slot and for the number 0, and a
-- device stands at its own slot number.
pub Reached-IsTable : (pool : ℕ) {dm : DeviceManager} → Reached pool dm → IsTable dm
Reached-IsTable pool (booted dm max_slots v v' e) =
    subst Booted e (initialize-Booted pool max_slots dm v)
Reached-IsTable pool (stepped r step) = Step-IsTable pool step (Reached-IsTable pool r)
