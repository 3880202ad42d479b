-- ===== src/Slots/Laws.antt =====
-- Finding devices again.
use mikanos_m1mac.Base.{
  ℕ, zero, suc, ◌+◌, ◌≤◌, ◌<◌, ◌≡◌, refl, sym, ◌∙◌, ap, none-ne-some, ltb, ◌==◌, ==_self,
  if◌then◌else◌, Bool, true, false, Bool-cases, Option, Option-cases, none, some, List, get_or, set,
  length, get_or-set_self, get_or-set_ne, ℕ_discrete, inl, inr, arith,
}
use mikanos_m1mac.Errors.{Code, success, invalid_slot_id, already_allocated}
use mikanos_m1mac.Memory.{alloc_array}
use mikanos_m1mac.Slots.{
  State, Device, DeviceManager, alloc_device, find_by_slot, find_from, find_by_port,
}

-- What a search gives: a device that is wanted, in a slot of the range; or nothing, and then no slot
-- of the range has one.
abbrev pub Found : (Device → Bool) → ℕ → ℕ → List (Option Device) → Option Device → Type 0
Found wanted i n devices none =
    (j : ℕ) (dev : Device)
    → i ≤ j
    → j < i + n
    → get_or devices j none ≡ some dev
    → wanted dev ≡ false
Found wanted i n devices (some dev) =
    (wanted dev ≡ true) × ((j : ℕ) × (i ≤ j) × (j < i + n) × (get_or devices j none ≡ some dev))

Found-from :
    (wanted : Device → Bool) (i n : ℕ) (devices : List (Option Device)) (r : Option Device)
    → ((dev : Device) → get_or devices i none ≡ some dev → wanted dev ≡ false)
    → Found wanted (i + 1) n devices r
    → Found wanted i (suc n) devices r
Found-from wanted i n devices none first f = λ j dev low high e. elim (ℕ_discrete i j) [
  | yes same ↦ first dev (rw same e)
  | no ne ↦ f j dev (omega arith) (omega arith) e
]
Found-from wanted i n devices (some dev) first (w, (j, low, high, e)) =
    (w, (j, omega arith, omega arith, e))

abbrev is_wanted : (Device → Bool) → Option Device → Bool
is_wanted wanted none = false
is_wanted wanted (some dev) = wanted dev

find_from-Found :
    (wanted : Device → Bool) (i n : ℕ) (devices : List (Option Device))
    → Found wanted i n devices (find_from wanted i n devices)
unfolding find_from
find_from-Found wanted i zero devices = λ j dev low high e. absurd (omega arith)
find_from-Found wanted i (suc n) devices = elim (Option-cases (get_or devices i none)) [
  | inl free ↦
      rw (free, find_from)
        (Found-from wanted i n devices _ (λ dev e. absurd (none-ne-some dev (sym free ∙ e)))
          (find_from-Found wanted (i + 1) n devices))
  | inr (dev, taken) ↦ elim (Bool-cases (wanted dev)) [
    | inl want ↦ rw (taken, find_from, want) (want, (i, omega arith, omega arith, taken))
    | inr other ↦
        rw (taken, find_from, other)
          (Found-from wanted i n devices _ (λ dev' e. ap (is_wanted wanted) (sym e ∙ taken) ∙ other)
            (find_from-Found wanted (i + 1) n devices))
  ]
]

-- `FindByPort` gives a device in one of the slots from 1 on that is at the port; if it gives null, no
-- such slot has one.
pub find_by_port-Found :
    (root_hub_port_num : ℕ → ℕ) (port_num : ℕ) (dm : DeviceManager)
    → Found
        (λ dev. root_hub_port_num dev.address == port_num)
        1
        dm.max_slots
        dm.devices
        (find_by_port root_hub_port_num port_num dm)
unfolding find_by_port
find_by_port-Found root_hub_port_num port_num dm =
    find_from-Found (λ dev. root_hub_port_num dev.address == port_num) 1 dm.max_slots dm.devices

-- What `AllocDevice` does. On success the slot was in range and free, and one slot has a new device
-- with its number, in the block that the pool gave; an error says that the slot is out of range, or
-- that it is taken, and changes nothing; and the undefined case is a free slot in range when the
-- pool has no block.
abbrev pub Allocated :
    ℕ → ℕ → State → ℕ → DeviceManager → ℕ → Option (Code × DeviceManager × ℕ) → Type 0
Allocated pool size_of state slot_id dm v none =
    (slot_id ≤ dm.max_slots)
    × (find_by_slot slot_id dm ≡ none)
    × ((alloc_array pool size_of 1 64 4096 v).0 ≡ none)
Allocated pool size_of state slot_id dm v (some (success, dm', v')) =
    (slot_id ≤ dm.max_slots)
    × (find_by_slot slot_id dm ≡ none)
    × ((p : ℕ) × (alloc_array pool size_of 1 64 4096 v ≡ (some p, v'))
        × ((j : ℕ)
            → find_by_slot j dm' ≡ (
                if slot_id == j
                then some (record { address = p; slot_id = slot_id; state = state })
                else find_by_slot j dm)))
Allocated pool size_of state slot_id dm v (some (invalid_slot_id, dm', v')) =
    (dm.max_slots < slot_id) × (dm' ≡ dm) × (v' ≡ v)
Allocated pool size_of state slot_id dm v (some (already_allocated, dm', v')) =
    (slot_id ≤ dm.max_slots)
    × ((dev : Device) × (find_by_slot slot_id dm ≡ some dev))
    × (dm' ≡ dm)
    × (v' ≡ v)
Allocated pool size_of state slot_id dm v (some (c, dm', v')) = ⊥

-- `AllocDevice` refuses exactly a slot out of range, as invalid, and a slot in range that is taken; it
-- changes nothing then. Into a free slot in range it puts a device in the block that the pool gives,
-- where `FindBySlot` finds it, while it finds in all other slots what it found before; only when the
-- pool has no block is a null pointer followed. The table has an entry for each slot and for 0.
pub alloc_device-Allocated :
    (pool size_of : ℕ) (state : State) (slot_id : ℕ) (dm : DeviceManager) (v : ℕ)
    → length dm.devices ≡ dm.max_slots + 1
    → Allocated pool size_of state slot_id dm v (alloc_device pool size_of state slot_id dm v)
unfolding alloc_device find_by_slot
alloc_device-Allocated pool size_of state slot_id dm v fits =
    elim (Bool-cases (ltb dm.max_slots slot_id)) [
      | inl outside ↦ rw outside (ground arith, refl, refl)
      | inr inside ↦ elim (Option-cases (get_or dm.devices slot_id none)) [
        | inr (dev, taken) ↦
            rw (inside, taken) (ground arith, (dev, at_slot inside ∙ taken), refl, refl)
        | inl free ↦ elim (Option-cases (alloc_array pool size_of 1 64 4096 v).0) [
          | inl empty ↦ rw (inside, free, empty) (ground arith, at_slot inside ∙ free, empty)
          | inr (p, block) ↦
              rw (inside, free, block)
                (
                  ground arith,
                  at_slot inside ∙ free,
                  (p, (λ i. (block i, (alloc_array pool size_of 1 64 4096 v).1)), found inside p),
                )
        ]
      ]
    ]
  where
    at_slot :
        ltb dm.max_slots slot_id ≡ false
        → (if ltb dm.max_slots slot_id then none else get_or dm.devices slot_id none)
          ≡ get_or dm.devices slot_id none
    at_slot inside = rw inside refl

    found :
        ltb dm.max_slots slot_id ≡ false
        → (p j : ℕ)
        → (if ltb dm.max_slots j
            then none
            else get_or
                (set dm.devices slot_id
                  (some (record { address = p; slot_id = slot_id; state = state })))
                j
                none)
          ≡ (if slot_id == j
              then some (record { address = p; slot_id = slot_id; state = state })
              else if ltb dm.max_slots j
              then none
              else get_or dm.devices j none)
    found inside p j = elim (ℕ_discrete slot_id j) [
      | yes same ↦
          rw (← same, inside, ==_self slot_id)
            (get_or-set_self dm.devices slot_id _ none (ground arith))
      | no ne ↦ rw (get_or-set_ne dm.devices slot_id j _ none ne) (ground arith)
    ]
