-- ===== src/Memory/Results.antt =====
-- What one call of `AllocMem` returns.
use mikanos_m1mac.Base.{
  ℕ, ◌+◌, ◌*◌, ◌^◌, ◌≤◌, ◌<◌, u64, ltb, if◌then◌else◌, ltb→lt, ltb→ge, Bool-cases, ◌≡◌, refl, subst,
  ◌⊎◌, inl, inr, Option, none, some, arith,
}
use mikanos_m1mac.Memory.{memory_pool_size, place, alloc_mem, alloc_array}
use mikanos_m1mac.Memory.Round.{round_up_bounds}
use mikanos_m1mac.Memory.Placement.{
  IsConstraint, IsAligned, IsUnbroken, IsValid, Places, place-Places,
}

module _ (memory_pool : ℕ) where
  -- A call for `size` bytes at `alloc_ptr`, and what it may give back.
  abbrev pub Outcome : ℕ → ℕ → ℕ → ℕ → Option ℕ × ℕ → Type 0
  Outcome size alignment boundary alloc_ptr (some p, next) =
      (alloc_ptr ≤ p)
      × IsAligned alignment p
      × ((boundary < size) ⊎ IsUnbroken boundary size p)
      × (p + size ≤ memory_pool + memory_pool_size)
      × (next ≡ p + size)
      × IsValid memory_pool next
  Outcome size alignment boundary alloc_ptr (none, next) =
      ((q : ℕ)
        → alloc_ptr ≤ q
        → IsAligned alignment q
        → IsUnbroken boundary size q
        → memory_pool + memory_pool_size < q + size)
      × (alloc_ptr ≤ next)
      × IsValid memory_pool next

no_wrap :
    (memory_pool size p : ℕ)
    → size ≤ 2 ^ 62
    → IsValid memory_pool p
    → (u64 (p + size) ≡ p + size)
      × (u64 (memory_pool + memory_pool_size) ≡ memory_pool + memory_pool_size)
no_wrap memory_pool size p small valid =
    omega (arith, round_up_bounds (memory_pool + memory_pool_size) (2 ^ 31))

advance-IsValid :
    (memory_pool size p : ℕ)
    → IsValid memory_pool p
    → p + size ≤ memory_pool + memory_pool_size
    → IsValid memory_pool (p + size)
advance-IsValid memory_pool size p valid fits = record {
  low_half = valid.low_half;
  from_pool = omega arith;
  to_limit = omega (arith, round_up_bounds (memory_pool + memory_pool_size) (2 ^ 31));
}

pub alloc_mem-Outcome :
    (memory_pool size alignment boundary alloc_ptr : ℕ)
    → IsConstraint alignment
    → IsConstraint boundary
    → size ≤ 2 ^ 62
    → IsValid memory_pool alloc_ptr
    → Outcome memory_pool size alignment boundary alloc_ptr
        (alloc_mem memory_pool size alignment boundary alloc_ptr)
unfolding alloc_mem
alloc_mem-Outcome pool size a b v ca cb small valid =
    go (place size a b v) (place-Places pool size a b v ca cb small valid)
  where
    go :
        (p : ℕ)
        → Places pool size a b v p
        → Outcome pool size a b v (
            if ltb (u64 (pool + memory_pool_size)) (u64 (p + size))
            then (none, p)
            else (some p, u64 (p + size)))
    go p placed =
        rw ((no_wrap pool size p small placed.valid).0, (no_wrap pool size p small placed.valid).1)
          (elim (Bool-cases (ltb (pool + memory_pool_size) (p + size))) [
            | inl full ↦ rw full (
              λ q above aligned unbroken.
                  omega (arith, placed.least q above aligned unbroken, ltb→lt _ _ full),
              placed.above,
              placed.valid,
            )
            | inr fits ↦ rw fits (
              placed.above,
              placed.aligned,
              placed.unbroken,
              ltb→ge _ _ fits,
              refl,
              advance-IsValid pool size p placed.valid (ltb→ge _ _ fits),
            )
          ])

-- A block of at most 2 ^ 62 bytes that `AllocMem` returns, its constraints powers of two and its
-- `alloc_ptr` valid, in a pool that ends below 2 ^ 48, starts at or behind `alloc_ptr`,
-- is aligned, lies between two boundaries unless it is larger than the boundary, and ends inside
-- the pool; `alloc_ptr` is moved to its end and stays valid.
pub alloc_mem-some :
    (memory_pool size alignment boundary alloc_ptr p next : ℕ)
    → IsConstraint alignment
    → IsConstraint boundary
    → size ≤ 2 ^ 62
    → IsValid memory_pool alloc_ptr
    → alloc_mem memory_pool size alignment boundary alloc_ptr ≡ (some p, next)
    → (alloc_ptr ≤ p)
      × IsAligned alignment p
      × ((boundary < size) ⊎ IsUnbroken boundary size p)
      × (p + size ≤ memory_pool + memory_pool_size)
      × (next ≡ p + size)
      × IsValid memory_pool next
alloc_mem-some pool size a b v p next ca cb small valid e =
    subst (Outcome pool size a b v) e (alloc_mem-Outcome pool size a b v ca cb small valid)

-- For at most 2 ^ 62 bytes, its constraints powers of two and its `alloc_ptr` valid, `AllocMem` returns null only if no address
-- `q` from `alloc_ptr` on will do: an aligned block there that keeps between two boundaries ends
-- behind the pool. It then does not move `alloc_ptr` back, and leaves it valid.
pub alloc_mem-none :
    (memory_pool size alignment boundary alloc_ptr next q : ℕ)
    → IsConstraint alignment
    → IsConstraint boundary
    → size ≤ 2 ^ 62
    → IsValid memory_pool alloc_ptr
    → alloc_mem memory_pool size alignment boundary alloc_ptr ≡ (none, next)
    → alloc_ptr ≤ q
    → IsAligned alignment q
    → IsUnbroken boundary size q
    → (memory_pool + memory_pool_size < q + size) × (alloc_ptr ≤ next) × IsValid memory_pool next
alloc_mem-none pool size a b v next q ca cb small valid e above aligned unbroken =
    let found : Outcome pool size a b v (none, next) =
      subst (Outcome pool size a b v) e (alloc_mem-Outcome pool size a b v ca cb small valid) in
    (found.0 q above aligned unbroken, found.1, found.2)

-- The same of `AllocArray`, where the product does not wrap.
pub alloc_array-Outcome :
    (memory_pool size_of num_obj alignment boundary alloc_ptr : ℕ)
    → IsConstraint alignment
    → IsConstraint boundary
    → size_of * num_obj ≤ 2 ^ 62
    → IsValid memory_pool alloc_ptr
    → Outcome memory_pool
        (size_of * num_obj)
        alignment
        boundary
        alloc_ptr
        (alloc_array memory_pool size_of num_obj alignment boundary alloc_ptr)
unfolding alloc_array
alloc_array-Outcome pool s n a b v ca cb small valid =
    rw whole (alloc_mem-Outcome pool (s * n) a b v ca cb small valid)
  where
    whole : u64 (s * n) ≡ s * n
    whole = omega arith
