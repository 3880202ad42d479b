-- ===== src/ArrayMap.antt =====
-- kernel/usb/arraymap.hpp: `ArrayMap<K, V, N>`, a map in a fixed array of slots.
pub mod Laws
pub mod Keys
mod Examples
use mikanos_m1mac.Base.{
  Option, none, some, List, [], ◌∷◌, Bool, true, false, if◌then◌else◌, ℕ, replicate, Eq,
}

-- `std::pair<std::optional<K>, V>`: a slot without a key keeps the value of its last entry.
pub record Slot {ℓ κ} (K : Type ℓ) (V : Type κ) : Type (ℓ ⊔ κ) where
  pub first : Option K
  pub second : V

module _ {ℓ κ} {K : Type ℓ} {V : Type κ} where
  -- `table_{}`, with `V{}` as an argument.
  pub empty : ℕ → V → List (Slot K V)
  empty n v = replicate n (record { first = none; second = v })

module _ {ℓ} {K : Type ℓ} ⦃e : Eq K⦄ where
  -- `opt_k && opt_k.value() == key`
  abbrev pub holds : Option K → K → Bool
  holds none key = false
  holds (some k) key = e.beq k key

module _ {ℓ κ} {K : Type ℓ} {V : Type κ} where
  -- The first slot without a key takes the entry; with none, nothing happens.
  pub put : K → V → List (Slot K V) → List (Slot K V)
  put key value [] = []
  put key value (s ∷ table) =
      let rest = put key value table in
      elim s.first [
        | none ↦ record { first = some key; second = value } ∷ table
        | some k ↦ s ∷ rest
      ]

module _ {ℓ κ} {K : Type ℓ} {V : Type κ} ⦃e : Eq K⦄ where
  unfoldable pub get : K → List (Slot K V) → Option V
  get key [] = none
  get key (s ∷ table) = if holds s.first key then some s.second else get key table

  pub delete : K → List (Slot K V) → List (Slot K V)
  delete key [] = []
  delete key (s ∷ table) =
      if holds s.first key then record s { first = none } ∷ table else s ∷ delete key table
