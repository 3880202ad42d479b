-- ===== src/Memory/Placement.antt =====
-- Where `AllocMem` puts a block: the lowest address from `alloc_ptr` on that meets the alignment
-- and does not straddle a boundary.
use native.Mathlib.Nat.{
  suc-mul, mul-le-mul_right, div-add-mod', div-lt_iff_lt-mul, mod-lt, mul_assoc, mul-mod_left,
  le_antisymm, le_refl,
}
use mikanos_m1mac.Base.{
  ℕ, suc, ◌+◌, ◌-◌, ◌*◌, ◌/◌, ◌%◌, ◌^◌, ◌≤◌, ◌<◌, u64, ltb, if◌then◌else◌, lt→ltb, ltb→lt, ltb→ge,
  Bool-cases, dec_lt, ◌≡◌, refl, sym, ap, subst, ◌∙◌, ◌⊎◌, inl, inr, arith,
}
use mikanos_m1mac.Base.Bits.{pow-add_two}
use mikanos_m1mac.Memory.{memory_pool_size, ceil, align, skip_boundary, place}
use mikanos_m1mac.Memory.Round.{
  round_up, round_up_bounds, round_up_least, two_pow_pos, two_pow_le, ceil-round_up,
}

-- What a caller may ask for: no constraint, or a power of two.
abbrev pub IsConstraint : ℕ → Type 0
IsConstraint a = (a ≡ 0) ⊎ ((k : ℕ) × (k ≤ 31) × (a ≡ 2 ^ k))

abbrev pub IsAligned : ℕ → ℕ → Type 0
IsAligned alignment p = (alignment ≡ 0) ⊎ (p % alignment ≡ 0)

-- The block `[p, p + size)` lies between two multiples of the boundary.
abbrev pub IsUnbroken : ℕ → ℕ → ℕ → Type 0
IsUnbroken boundary size p = (boundary ≡ 0) ⊎ (p % boundary + size ≤ boundary)

-- No rounding takes `alloc_ptr` past the first multiple of 2 ^ 31 behind the pool.
abbrev pub limit : ℕ → ℕ
limit memory_pool = round_up (memory_pool + memory_pool_size) (2 ^ 31)

pub record IsValid (memory_pool alloc_ptr : ℕ) : Type 0 where
  pub low_half : memory_pool + memory_pool_size ≤ 2 ^ 48
  pub from_pool : memory_pool ≤ alloc_ptr
  pub to_limit : alloc_ptr ≤ limit memory_pool

split_pow : (k j : ℕ) → k ≤ j → 2 ^ (j - k) * 2 ^ k ≡ 2 ^ j
split_pow k j h = sym (pow-add_two (j - k) k) ∙ ap (λ t. 2 ^ t) {y = j} (omega arith)

-- A multiple of a power of two is a multiple of the lower ones.
coarser : (k j c : ℕ) → k ≤ j → c * 2 ^ j ≡ c * 2 ^ (j - k) * 2 ^ k
coarser k j c h = ap (λ t. c * t) (sym (split_pow k j h)) ∙ sym (mul_assoc c (2 ^ (j - k)) (2 ^ k))

round_up-limit : (pool v k : ℕ) → k ≤ 31 → v ≤ limit pool → round_up v (2 ^ k) ≤ limit pool
round_up-limit pool v k h le =
    rw (coarser k 31 ((pool + memory_pool_size + 2 ^ 31 - 1) / 2 ^ 31) h) (
      round_up_least v (2 ^ k) _ (two_pow_pos k)
        (rw (← coarser k 31 ((pool + memory_pool_size + 2 ^ 31 - 1) / 2 ^ 31) h) le))

-- `Ceil` of a valid address does not wrap.
pub ceil_lem : (pool v k : ℕ) → IsValid pool v → k ≤ 31 → ceil v (2 ^ k) ≡ round_up v (2 ^ k)
ceil_lem pool v k valid h =
    ceil-round_up v k h
      (omega (arith, two_pow_le k h, round_up_bounds (pool + memory_pool_size) (2 ^ 31)))

-- Rounding a multiple of `2 ^ k` to any power of two gives a multiple of `2 ^ k`.
round_up-keeps : (c k j : ℕ) → (d : ℕ) × (round_up (c * 2 ^ k) (2 ^ j) ≡ d * 2 ^ k)
round_up-keeps c k j = elim (dec_lt j k) [
  | yes h ↦ (
    c,
    le_antisymm
        (rw (coarser j k c (omega arith)) (round_up_least _ (2 ^ j) _ (two_pow_pos j) (le_refl _)))
        (round_up_bounds (c * 2 ^ k) (2 ^ j) (two_pow_pos j)).0,
  )
  | no h ↦ ((c * 2 ^ k + 2 ^ j - 1) / 2 ^ j * 2 ^ (j - k), coarser k j _ (omega arith))
]

-- `p` is the lowest address from `v` on that is a multiple of `a`, and lies within the limit.
record Aligns (pool a v p : ℕ) : Type 0 where
  valid : IsValid pool p
  above : v ≤ p
  multiple : (a ≡ 0) ⊎ ((c : ℕ) × (p ≡ c * a))
  least : (q : ℕ) → v ≤ q → IsAligned a q → p ≤ q

quotient : (q d : ℕ) → 0 < d → q % d ≡ 0 → q ≡ q / d * d
quotient q d h e = omega (arith, div-add-mod' q d)

align_pow : (pool v k : ℕ) → IsValid pool v → k ≤ 31 → align (2 ^ k) v ≡ round_up v (2 ^ k)
unfolding align
align_pow pool v k valid h = rw (lt→ltb 0 (2 ^ k) (two_pow_pos k)) (ceil_lem pool v k valid h)

round_up-least_aligned : (v k q : ℕ) → v ≤ q → IsAligned (2 ^ k) q → round_up v (2 ^ k) ≤ q
round_up-least_aligned v k q h (inl e) = absurd (omega (arith, two_pow_pos k))
round_up-least_aligned v k q h (inr e) =
    let m = quotient q (2 ^ k) (two_pow_pos k) e in
    rw m (round_up_least v (2 ^ k) (q / 2 ^ k) (two_pow_pos k) (rw (← m) h))

align-Aligns : (pool a v : ℕ) → IsConstraint a → IsValid pool v → Aligns pool a v (align a v)
unfolding align
align-Aligns pool a v (inl e) valid =
    subst (λ a. Aligns pool a v (align a v)) (sym e)
      (record { valid = valid; above = le_refl v; multiple = inl refl; least = λ q h _. h })
align-Aligns pool a v (inr (k, h, e)) valid =
    subst (λ a. Aligns pool a v (align a v)) (sym e)
      (rw (align_pow pool v k valid h) (record {
        valid = record {
          low_half = valid.low_half;
          from_pool = omega (arith, round_up_bounds v (2 ^ k) (two_pow_pos k));
          to_limit = round_up-limit pool v k h valid.to_limit;
        };
        above = (round_up_bounds v (2 ^ k) (two_pow_pos k)).0;
        multiple = inr ((v + 2 ^ k - 1) / 2 ^ k, refl);
        least = λ q below aligned. round_up-least_aligned v k q below aligned;
      }))

-- The lowest address from `v` on that meets both constraints, if a block of `size` bytes can.
pub record Places (pool size a b v p : ℕ) : Type 0 where
  pub valid : IsValid pool p
  pub above : v ≤ p
  pub aligned : IsAligned a p
  pub unbroken : (b < size) ⊎ IsUnbroken b size p
  pub least : (q : ℕ) → v ≤ q → IsAligned a q → IsUnbroken b size q → p ≤ q

multiple-IsAligned : (a p : ℕ) → (a ≡ 0) ⊎ ((c : ℕ) × (p ≡ c * a)) → IsAligned a p
multiple-IsAligned a p (inl e) = inl e
multiple-IsAligned a p (inr (c, e)) = inr (rw e (mul-mod_left c a))

-- A block from `p` that ends at or before the next multiple of `d` does not straddle one.
unbroken_of_ends : (p d size : ℕ) → 0 < d → p + size ≤ round_up p d → p % d + size ≤ d
unbroken_of_ends p d size h ends =
    omega (arith, div-add-mod' p d, mod-lt p h, next_multiple, suc-mul (p / d) d)
  where
    next_multiple : round_up p d ≤ suc (p / d) * d
    next_multiple =
        round_up_least p d (suc (p / d)) h
          (omega (arith, div-add-mod' p d, mod-lt p h, suc-mul (p / d) d))

-- A block that starts before the multiple `c * d` and does not straddle it ends before it.
ends_of_unbroken : (q c d size : ℕ) → 0 < d → q < c * d → q % d + size ≤ d → q + size ≤ c * d
ends_of_unbroken q c d size h below unbroken = omega (
  arith,
  div-add-mod' q d,
  suc-mul (q / d) d,
  mul-le-mul_right {m = suc (q / d)} {n = c} d ((div-lt_iff_lt-mul h).1 below),
)

skip_pow :
    (pool size p j : ℕ)
    → IsValid pool p
    → j ≤ 31
    → size ≤ 2 ^ 62
    → skip_boundary size (2 ^ j) p
      ≡ (if ltb (round_up p (2 ^ j)) (p + size) then round_up p (2 ^ j) else p)
unfolding skip_boundary
skip_pow pool size p j valid h small =
    rw (lt→ltb 0 (2 ^ j) (two_pow_pos j), ceil_lem pool p j valid h, no_wrap)
  where
    no_wrap : u64 (p + size) ≡ p + size
    no_wrap = omega (arith, round_up_bounds (pool + memory_pool_size) (2 ^ 31))

multiple-round_up :
    (a p j : ℕ)
    → IsConstraint a
    → (a ≡ 0) ⊎ ((c : ℕ) × (p ≡ c * a))
    → (a ≡ 0) ⊎ ((c : ℕ) × (round_up p (2 ^ j) ≡ c * a))
multiple-round_up a p j ca (inl e) = inl e
multiple-round_up a p j (inl z) (inr (c, e)) = inl z
multiple-round_up a p j (inr (k, h, z)) (inr (c, e)) =
    let (d, f) = round_up-keeps c k j in inr (d, rw (e, z) f)

module _ (pool size a v p j : ℕ) (ca : IsConstraint a) (h : j ≤ 31) (r : Aligns pool a v p) where
  moved-Places : round_up p (2 ^ j) < p + size → Places pool size a (2 ^ j) v (round_up p (2 ^ j))
  moved-Places straddles = record {
    valid = record {
      low_half = r.valid.low_half;
      from_pool = omega (arith, r.valid.from_pool, bounds);
      to_limit = round_up-limit pool p j h r.valid.to_limit;
    };
    above = omega (arith, r.above, bounds);
    aligned = multiple-IsAligned a _ (multiple-round_up a p j ca r.multiple);
    unbroken = starts_there;
    least = λ q above aligned unbroken. bound q (r.least q above aligned) unbroken;
  }
    where
      bounds : (p ≤ round_up p (2 ^ j)) × (round_up p (2 ^ j) < p + 2 ^ j)
      bounds = round_up_bounds p (2 ^ j) (two_pow_pos j)

      at_boundary : round_up p (2 ^ j) % 2 ^ j ≡ 0
      at_boundary = mul-mod_left ((p + 2 ^ j - 1) / 2 ^ j) (2 ^ j)

      starts_there : (2 ^ j < size) ⊎ IsUnbroken (2 ^ j) size (round_up p (2 ^ j))
      starts_there = elim (dec_lt (2 ^ j) size) [
        | yes big ↦ inl big
        | no fits ↦ inr (inr (omega (arith, at_boundary)))
      ]

      bound : (q : ℕ) → p ≤ q → IsUnbroken (2 ^ j) size q → round_up p (2 ^ j) ≤ q
      bound q le (inl e) = absurd (omega (arith, two_pow_pos j))
      bound q le (inr unbroken) = elim (dec_lt q (round_up p (2 ^ j))) [
        | yes below ↦ absurd (
            omega (
              arith,
              ends_of_unbroken q ((p + 2 ^ j - 1) / 2 ^ j) (2 ^ j) size (two_pow_pos j) below
                  unbroken,
            ))
        | no above ↦ omega arith
      ]

  kept-Places : p + size ≤ round_up p (2 ^ j) → Places pool size a (2 ^ j) v p
  kept-Places ends = record {
    valid = r.valid;
    above = r.above;
    aligned = multiple-IsAligned a p r.multiple;
    unbroken = inr (inr (unbroken_of_ends p (2 ^ j) size (two_pow_pos j) ends));
    least = λ q above aligned _. r.least q above aligned;
  }

-- The second step keeps what the first has reached, and moves to the boundary only if it must.
skip-Places :
    (pool size a b v p : ℕ)
    → IsConstraint a
    → IsConstraint b
    → size ≤ 2 ^ 62
    → Aligns pool a v p
    → Places pool size a b v (skip_boundary size b p)
unfolding skip_boundary
skip-Places pool size a b v p ca (inl e) small r =
    subst (λ b. Places pool size a b v (skip_boundary size b p)) (sym e)
      (record {
        valid = r.valid;
        above = r.above;
        aligned = multiple-IsAligned a p r.multiple;
        unbroken = inr (inl refl);
        least = λ q below aligned _. r.least q below aligned;
      })
skip-Places pool size a b v p ca (inr (j, h, e)) small r =
    subst (λ b. Places pool size a b v (skip_boundary size b p)) (sym e)
      (rw (skip_pow pool size p j r.valid h small)
        (elim (Bool-cases (ltb (round_up p (2 ^ j)) (p + size))) [
          | inl t ↦ rw t (moved-Places pool size a v p j ca h r (ltb→lt _ _ t))
          | inr f ↦ rw f (kept-Places pool size a v p j ca h r (ltb→ge _ _ f))
        ]))

-- Where `AllocMem` tries a block, for constraints that are powers of two: at the lowest address
-- from `alloc_ptr` on that is aligned and keeps the block between two boundaries, if a block of
-- that size can lie between two at all.
pub place-Places :
    (pool size alignment boundary alloc_ptr : ℕ)
    → IsConstraint alignment
    → IsConstraint boundary
    → size ≤ 2 ^ 62
    → IsValid pool alloc_ptr
    → Places pool size alignment boundary alloc_ptr (place size alignment boundary alloc_ptr)
unfolding place
place-Places pool size a b v ca cb small valid =
    skip-Places pool size a b v (align a v) ca cb small (align-Aligns pool a v ca valid)
