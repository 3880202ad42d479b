-- ===== src/ArrayMap/Laws.antt =====
-- `Get` after `Put` and `Delete`: the table as a finite map.
use mikanos_m1mac.Base.{
  ℕ, zero, suc, ◌-◌, ◌<◌, ◌≡◌, refl, none, some, List, [], ◌∷◌, if◌then◌else◌, length, arith, Eq,
  Option-cases, inl, inr,
}
use mikanos_m1mac.ArrayMap.{Slot, empty, get, put, delete}
use mikanos_m1mac.ArrayMap.Keys.{
  room, IsDistinct, get-IsAbsent, IsAbsent-get, put-IsDistinct, length-put, room-put,
}

module _ {ℓ κ} {K : Type ℓ} {V : Type κ} ⦃e : Eq K⦄ where
  -- A key that the table does not hold is put where there is a free slot, and then found; all other
  -- keys are found as before.
  pub get-put :
      (j key : K) (value : V) (table : List (Slot K V))
      → get key table ≡ none
      → 0 < room table
      → get j (put key value table) ≡ (if e.beq key j then some value else get j table)
  unfolding get put
  get-put j key value [] h free = elim free [ ]
  get-put j key value (s ∷ table) h free = elim (Option-cases s.first) [
    | inl empty ↦ ground arith
    | inr (k, taken) ↦
        ground (arith, get-put j key value table, e.beq_iff key j, e.beq_iff k j, e.beq_iff k key)
  ]

  -- In a table with distinct keys, a deleted key is gone, and all other keys are found as before.
  pub get-delete :
      (j key : K) (table : List (Slot K V))
      → IsDistinct table
      → get j (delete key table) ≡ (if e.beq key j then none else get j table)
  unfolding get delete
  get-delete j key [] d = ground arith
  get-delete j key (s ∷ table) d = elim (Option-cases s.first) [
    | inl empty ↦ ground (arith, get-delete j key table d.1)
    | inr (k, taken) ↦ ground (
      arith,
      get-delete j key table d.1,
      get-IsAbsent k table (rw taken at d.0),
      e.beq_iff key j,
      e.beq_iff k j,
      e.beq_iff k key,
    )
  ]

  -- `Put` into a table without a free slot does nothing: the entry is dropped without an error.
  put-full :
      (key : K) (value : V) (table : List (Slot K V)) → room table ≡ 0 → put key value table ≡ table
  unfolding put
  put-full key value [] h = refl
  put-full key value (s ∷ table) h = ground (arith, put-full key value table)

  -- The tables that the driver can reach: distinct keys, the number of slots unchanged, and one
  -- free slot less for each entry.
  pub put-IsTable :
      (key : K) (value : V) (table : List (Slot K V))
      → get key table ≡ none
      → IsDistinct table
      → IsDistinct (put key value table)
        × (length (put key value table) ≡ length table)
        × (room (put key value table) ≡ room table - 1)
  put-IsTable key value table h d = (
    put-IsDistinct key value table (IsAbsent-get key table h) d,
    length-put key value table,
    room-put key value table,
  )

  pub get-empty : (key : K) (n : ℕ) (v : V) → get key (empty n v) ≡ none
  unfolding get empty
  get-empty key zero v = refl
  get-empty key (suc n) v = get-empty key n v
