-- ===== src/ArrayMap/Keys.antt =====
-- The keys of an `ArrayMap`: whether they are distinct, and how many slots are free.
use mikanos_m1mac.Base.{
  ℕ, ◌+◌, ◌-◌, ◌≡◌, refl, Option, none, some, List, [], ◌∷◌, true, false, length, arith, Eq,
  Option-cases, Bool-cases, beq_sym, subst, inl, inr,
}
use mikanos_m1mac.ArrayMap.{Slot, holds, get, put, delete}

abbrev is_free {ℓ} : {K : Type ℓ} → Option K → ℕ
is_free none = 1
is_free (some k) = 0

module _ {ℓ κ} {K : Type ℓ} {V : Type κ} where
  -- How many slots have no key.
  abbrev pub room : List (Slot K V) → ℕ
  room [] = 0
  room (s ∷ table) = is_free s.first + room table

module _ {ℓ κ} {K : Type ℓ} {V : Type κ} ⦃e : Eq K⦄ where
  -- No slot of the table holds the key.
  abbrev pub IsAbsent : K → List (Slot K V) → Type 0
  IsAbsent key [] = Unit
  IsAbsent key (s ∷ table) = (holds s.first key ≡ false) × IsAbsent key table

  abbrev pub AbsentBelow : Option K → List (Slot K V) → Type 0
  AbsentBelow none table = Unit
  AbsentBelow (some k) table = IsAbsent k table

  -- No two slots hold the same key.
  abbrev pub IsDistinct : List (Slot K V) → Type 0
  IsDistinct [] = Unit
  IsDistinct (s ∷ table) = AbsentBelow s.first table × IsDistinct table

  pub get-IsAbsent : (key : K) (table : List (Slot K V)) → IsAbsent key table → get key table ≡ none
  unfolding get
  get-IsAbsent key [] h = refl
  get-IsAbsent key (s ∷ table) h = ground (arith, get-IsAbsent key table h.1)

  pub IsAbsent-get : (key : K) (table : List (Slot K V)) → get key table ≡ none → IsAbsent key table
  unfolding get
  IsAbsent-get key [] h = tt
  IsAbsent-get key (s ∷ table) h = ground (arith, IsAbsent-get key table)

  pub room-put :
      (key : K) (value : V) (table : List (Slot K V)) → room (put key value table) ≡ room table - 1
  unfolding put
  room-put key value [] = omega arith
  room-put key value (s ∷ table) = ground (arith, room-put key value table)

  pub length-put :
      (key : K) (value : V) (table : List (Slot K V)) → length (put key value table) ≡ length table
  unfolding put
  length-put key value [] = refl
  length-put key value (s ∷ table) = ground (arith, length-put key value table)

  pub put-IsAbsent :
      (j key : K) (value : V) (table : List (Slot K V))
      → e.beq key j ≡ false
      → IsAbsent j table
      → IsAbsent j (put key value table)
  unfolding put
  put-IsAbsent j key value [] ne h = tt
  put-IsAbsent j key value (s ∷ table) ne h = ground (arith, put-IsAbsent j key value table)

  pub delete-IsAbsent :
      (j key : K) (table : List (Slot K V)) → IsAbsent j table → IsAbsent j (delete key table)
  unfolding delete
  delete-IsAbsent j key [] h = tt
  delete-IsAbsent j key (s ∷ table) h = ground (arith, delete-IsAbsent j key table)

  IsAbsent-beq :
      (k key : K) (table : List (Slot K V))
      → e.beq k key ≡ true
      → IsAbsent k table
      → IsAbsent key table
  IsAbsent-beq k key table h a = subst (λ k. IsAbsent k table) ((e.beq_iff k key).0 h) a

  pub delete-IsAbsent_self :
      (key : K) (table : List (Slot K V)) → IsDistinct table → IsAbsent key (delete key table)
  unfolding delete
  delete-IsAbsent_self key [] h = tt
  delete-IsAbsent_self key (s ∷ table) h = elim (Option-cases s.first) [
    | inl free ↦ ground (arith, delete-IsAbsent_self key table)
    | inr (k, taken) ↦ ground (arith, delete-IsAbsent_self key table, IsAbsent-beq k key table)
  ]

  pub put-IsDistinct :
      (key : K) (value : V) (table : List (Slot K V))
      → IsAbsent key table
      → IsDistinct table
      → IsDistinct (put key value table)
  unfolding put
  put-IsDistinct key value [] a d = tt
  put-IsDistinct key value (s ∷ table) a d = elim (Option-cases s.first) [
    | inl free ↦ rw (free, put) (a.1, d.1)
    | inr (k, taken) ↦
        let away = rw taken at a.0 in
        let below = rw taken at d.0 in
        rw (taken, put, taken)
          (
            put-IsAbsent k key value table (beq_sym k key away) below,
            put-IsDistinct key value table a.1 d.1,
          )
  ]

  delete-AbsentBelow :
      (o : Option K) (key : K) (table : List (Slot K V))
      → AbsentBelow o table
      → AbsentBelow o (delete key table)
  delete-AbsentBelow none key table a = tt
  delete-AbsentBelow (some k) key table a = delete-IsAbsent k key table a

  pub delete-IsDistinct :
      (key : K) (table : List (Slot K V)) → IsDistinct table → IsDistinct (delete key table)
  unfolding delete
  delete-IsDistinct key [] d = tt
  delete-IsDistinct key (s ∷ table) d = elim (Bool-cases (holds s.first key)) [
    | inl hit ↦ rw hit (tt, d.1)
    | inr miss ↦ rw miss (delete-AbsentBelow s.first key table d.0, delete-IsDistinct key table d.1)
  ]
