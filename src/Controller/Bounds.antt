-- ===== src/Controller/Bounds.antt =====
-- `MostSignificantBit`: the index of the highest bit.
use mikanos_m1mac.Base.{
  ℕ, zero, suc, ◌*◌, ◌/◌, ◌%◌, ◌^◌, ◌<◌, ◌≤◌, ◌≡◌, ◌≢◌, ◌==◌, ==_iff, false≢true, sym, ◌∙◌,
  Bool-cases, false, inl, inr, arith,
}
use native.Mathlib.Nat.{lt-mul-div-succ, div-le_of_le-mul, one-le-pow}
use mikanos_m1mac.Controller.Endpoints.{bsr, most_significant_bit}

upper_half : (p v : ℕ) → v < 2 * p → v / p % 2 ≡ 1 → p ≤ v
upper_half p v lt e = grind arith

lower_half : (p v : ℕ) → 0 < p → v < 2 * p → v / p % 2 ≢ 1 → v < p
lower_half p v pos lt ne = grind (arith, lt-mul-div-succ v pos, div-le_of_le-mul 1 {m = v} {n = p})

bsr-bounds :
    (n v : ℕ) → v < 2 ^ n → v ≢ 0 → (2 ^ bsr n v ≤ v) × (v < 2 ^ suc (bsr n v)) × (bsr n v < n)
unfolding bsr
bsr-bounds zero v lt ne = absurd (ne (omega arith))
bsr-bounds (suc n) v lt ne = elim (Bool-cases (v / 2 ^ n % 2 == 1)) [
  | inl e ↦ rw e (upper_half (2 ^ n) v (omega arith) ((==_iff _ _).0 e), lt, omega arith)
  | inr e ↦
      let (low, high, index) =
        bsr-bounds n v
          (lower_half (2 ^ n) v (one-le-pow n 2 (omega arith)) (omega arith)
            (λ z. false≢true (sym e ∙ (==_iff _ _).1 z)))
          ne in
      rw e (low, high, omega arith)
]

-- For a value that is not 0, `MostSignificantBit` is the index of its highest bit: the value lies
-- between that power of two and the next.
pub most_significant_bit-bounds :
    (v : ℕ)
    → v < 2 ^ 32
    → v ≢ 0
    → let k = most_significant_bit v in (2 ^ k ≤ v) × (v < 2 ^ suc k) × (k < 32)
most_significant_bit-bounds v lt ne =
    let e : (v == 0) ≡ false = ground arith in rw e (bsr-bounds 32 v lt ne)
