-- ===== src/Memory/Round.antt =====
-- Rounding up to a multiple, and `Ceil` as rounding at a power of two.
use native.Mathlib.Nat.{suc-mul, one-le-pow, pow-le-pow_right, div-mul-le_self, lt-div-mul-add}
use mikanos_m1mac.Base.{
  ℕ, zero, suc, ◌+◌, ◌-◌, ◌*◌, ◌/◌, ◌^◌, ◌≤◌, ◌<◌, u32, u64, ◌≡◌, sym, ap, ◌∙◌, arith,
}
use mikanos_m1mac.Base.Bits.{bit_and-high_mask, pow-add_two}
use mikanos_m1mac.Memory.{ceil, not64}

abbrev pub round_up : ℕ → ℕ → ℕ
round_up v d = (v + d - 1) / d * d

pub round_up_bounds : (v d : ℕ) → 0 < d → (v ≤ round_up v d) × (round_up v d < v + d)
round_up_bounds v d h =
    omega (arith, div-mul-le_self (v + d - 1) d, lt-div-mul-add {a = v + d - 1} {b = d} h)

-- No multiple of `d` lies between `v` and `round_up v d`.
pub round_up_least : (v d c : ℕ) → 0 < d → v ≤ c * d → round_up v d ≤ c * d
round_up_least v d c h le = grind (arith, round_up_bounds v d h)

pub two_pow_pos : (k : ℕ) → 0 < 2 ^ k
two_pow_pos k = one-le-pow k 2 (omega arith)

pub two_pow_le : (k : ℕ) → k ≤ 31 → 2 ^ k ≤ 2 ^ 31
two_pow_le k h = pow-le-pow_right {n = 2} (omega arith) h

sub_one_mul : (x y : ℕ) → 0 < x → (x - 1) * y + y ≡ x * y
sub_one_mul zero y h = elim h [ ]
sub_one_mul (suc x) y h = let e : suc x - 1 ≡ x = omega arith in rw e (sym (suc-mul x y))

word_split : (k : ℕ) → k ≤ 31 → 2 ^ (64 - k) * 2 ^ k ≡ 2 ^ 64
word_split k h = sym (pow-add_two (64 - k) k) ∙ ap (λ t. 2 ^ t) {y = 64} (omega arith)

-- The mask of `Ceil` has ones above bit `k`.
mask_shape : (k : ℕ) → k ≤ 31 → not64 (u32 (2 ^ k + (2 ^ 32 - 1))) ≡ (2 ^ (64 - k) - 1) * 2 ^ k
mask_shape k h = omega (
  arith,
  two_pow_pos k,
  two_pow_le k h,
  word_split k h,
  sub_one_mul (2 ^ (64 - k)) (2 ^ k) (two_pow_pos (64 - k)),
)

pub ceil-round_up : (v k : ℕ) → k ≤ 31 → v + 2 ^ k ≤ 2 ^ 64 → ceil v (2 ^ k) ≡ round_up v (2 ^ k)
unfolding ceil
ceil-round_up v k h fits =
    rw (mask_shape k h, no_wrap)
      (bit_and-high_mask (64 - k) k (v + 2 ^ k - 1) (omega (arith, two_pow_pos k, word_split k h)))
  where
    no_wrap : u64 (v + 2 ^ k + (2 ^ 64 - 1)) ≡ v + 2 ^ k - 1
    no_wrap = omega (arith, two_pow_pos k)
