-- ===== src/Base/Bits.antt =====
-- `&` and `|` at variables: both work bit by bit, and split at any position.
use Prim.Native.Nat.{digits, bitwise, bit_and-bitwise, bit_or-bitwise}
use Prim.Native.Nat.{
  ℕ, zero, suc, ◌+◌, ◌-◌, ◌*◌, ◌/◌, ◌%◌, ◌^◌, ◌≤◌, ◌<◌, min, max, bit_and, bit_or,
}
use native.Mathlib.Nat.{
  pow-suc, pow-succ', one-le-pow, add-suc, div-lt_iff_lt-mul, div-div-eq-div-mul,
}
use mathlib.Core.Path.{◌≡◌, refl, sym, ap}
use native.Mathlib.Omega.{arith}

module _ (z : ℕ → ℕ) (f : ℕ → ℕ → ℕ) where
  -- Any two amounts of fuel that are not below the first number give the same digits.
  digits_irrelevant :
      (fuel spare a b : ℕ) → a ≤ fuel → a ≤ spare → digits z f fuel a b ≡ digits z f spare a b
  digits_irrelevant zero zero a b h k = refl
  digits_irrelevant zero (suc spare) zero b h k = refl
  digits_irrelevant zero (suc spare) (suc a) b h k = absurd (omega arith)
  digits_irrelevant (suc fuel) zero zero b h k = refl
  digits_irrelevant (suc fuel) zero (suc a) b h k = absurd (omega arith)
  digits_irrelevant (suc fuel) (suc spare) zero b h k = refl
  digits_irrelevant (suc fuel) (suc spare) (suc a) b h k =
      ap (λ d. d * 2 + f (suc a % 2) (b % 2))
        (digits_irrelevant fuel spare (suc a / 2) (b / 2) (omega arith) (omega arith))

  lowest_digit :
      (a b : ℕ)
      → bitwise z f (suc a) b ≡ bitwise z f (suc a / 2) (b / 2) * 2 + f (suc a % 2) (b % 2)
  lowest_digit a b =
      ap (λ d. d * 2 + f (suc a % 2) (b % 2))
        (digits_irrelevant a (suc a / 2) (suc a / 2) (b / 2) (omega arith) (omega arith))

pub bit_and_halves : (a b : ℕ) → bit_and a b ≡ bit_and (a / 2) (b / 2) * 2 + min (a % 2) (b % 2)
bit_and_halves zero b = simp bit_and-bitwise (omega arith)
bit_and_halves (suc a) b = simp bit_and-bitwise (lowest_digit (λ _. 0) min a b)

pub bit_or_halves : (a b : ℕ) → bit_or a b ≡ bit_or (a / 2) (b / 2) * 2 + max (a % 2) (b % 2)
bit_or_halves zero b = simp bit_or-bitwise (omega arith)
bit_or_halves (suc a) b = simp bit_or-bitwise (lowest_digit (λ y. y) max a b)

bit_and-zero_upto : (n a : ℕ) → a ≤ n → bit_and a 0 ≡ 0
bit_and-zero_upto n zero h = refl
bit_and-zero_upto zero (suc a) h = absurd (omega arith)
bit_and-zero_upto (suc n) (suc a) h =
    omega (arith, bit_and_halves (suc a) 0, bit_and-zero_upto n (suc a / 2) (omega arith))

pub bit_and-zero : (a : ℕ) → bit_and a 0 ≡ 0
bit_and-zero a = bit_and-zero_upto a a (omega arith)

bit_or-zero_upto : (n a : ℕ) → a ≤ n → bit_or a 0 ≡ a
bit_or-zero_upto n zero h = refl
bit_or-zero_upto zero (suc a) h = absurd (omega arith)
bit_or-zero_upto (suc n) (suc a) h =
    omega (arith, bit_or_halves (suc a) 0, bit_or-zero_upto n (suc a / 2) (omega arith))

pub bit_or-zero : (a : ℕ) → bit_or a 0 ≡ a
bit_or-zero a = bit_or-zero_upto a a (omega arith)

pub zero-bit_and : (b : ℕ) → bit_and 0 b ≡ 0
zero-bit_and b = simp bit_and-bitwise

pub zero-bit_or : (b : ℕ) → bit_or 0 b ≡ b
zero-bit_or b = simp bit_or-bitwise

double_shift : (c k : ℕ) → c * 2 ^ suc k ≡ 2 * (c * 2 ^ k)
double_shift c k = omega (arith, ap (λ (t : ℕ). c * t) (pow-suc 2 k))

-- A number of the form `c * 2 ^ k + r` and one of the form `d * 2 ^ k + s`, with `r` and `s` below
-- `2 ^ k`, are joined part by part.
pub bit_and_split :
    (k c d r s : ℕ)
    → r < 2 ^ k
    → s < 2 ^ k
    → bit_and (c * 2 ^ k + r) (d * 2 ^ k + s) ≡ bit_and c d * 2 ^ k + bit_and r s
bit_and_split zero c d r s hr hs = ground (arith, bit_and-zero 0)
bit_and_split (suc k) c d r s hr hs = ground (
  arith,
  double_shift c k,
  double_shift d k,
  double_shift (bit_and c d) k,
  pow-suc 2 k,
  bit_and_halves (c * 2 ^ suc k + r) (d * 2 ^ suc k + s),
  bit_and_halves r s,
  bit_and_split k c d (r / 2) (s / 2) (omega (arith, pow-suc 2 k)) (omega (arith, pow-suc 2 k)),
)

pub bit_or_split :
    (k c d r s : ℕ)
    → r < 2 ^ k
    → s < 2 ^ k
    → bit_or (c * 2 ^ k + r) (d * 2 ^ k + s) ≡ bit_or c d * 2 ^ k + bit_or r s
bit_or_split zero c d r s hr hs = ground (arith, bit_or-zero 0)
bit_or_split (suc k) c d r s hr hs = ground (
  arith,
  double_shift c k,
  double_shift d k,
  double_shift (bit_or c d) k,
  pow-suc 2 k,
  bit_or_halves (c * 2 ^ suc k + r) (d * 2 ^ suc k + s),
  bit_or_halves r s,
  bit_or_split k c d (r / 2) (s / 2) (omega (arith, pow-suc 2 k)) (omega (arith, pow-suc 2 k)),
)

-- All of the low `k` bits.
bit_and_ones : (k a : ℕ) → a < 2 ^ k → bit_and a (2 ^ k - 1) ≡ a
bit_and_ones zero a h = ground (arith, bit_and-zero a)
bit_and_ones (suc k) a h = ground (
  arith,
  pow-suc 2 k,
  one-le-pow k 2,
  bit_and_halves a (2 ^ suc k - 1),
  bit_and_ones k (a / 2) (omega (arith, pow-suc 2 k)),
)

-- A mask of the low `k` bits is the remainder by `2 ^ k`.
pub bit_and-low_mask : (k a : ℕ) → bit_and a (2 ^ k - 1) ≡ a % 2 ^ k
bit_and-low_mask k a = ground (
  arith,
  one-le-pow k 2,
  bit_and_split k (a / 2 ^ k) 0 (a % 2 ^ k) (2 ^ k - 1),
  bit_and_ones k (a % 2 ^ k),
  bit_and-zero (a / 2 ^ k),
)

-- Disjoint parts are joined by `|` as by `+`.
pub bit_or_disjoint : (k c r : ℕ) → r < 2 ^ k → bit_or (c * 2 ^ k) r ≡ c * 2 ^ k + r
bit_or_disjoint k c r h =
    ground (arith, one-le-pow k 2, bit_or_split k c 0 0 r, bit_or-zero c, zero-bit_or r)

pub pow-add_two : (n k : ℕ) → 2 ^ (n + k) ≡ 2 ^ n * 2 ^ k
pow-add_two n zero = ground arith
pow-add_two n (suc k) = ground (
  arith,
  pow-add_two n k,
  pow-suc 2 k,
  pow-suc 2 (n + k),
  ap (λ (t : ℕ). 2 ^ t) (add-suc n k),
  double_shift (2 ^ n) k,
)

-- In a word of `n + k` bits, `a & ~(2^k - 1)` clears the low `k` bits.
pub bit_and-high_mask :
    (n k a : ℕ) → a < 2 ^ n * 2 ^ k → bit_and a ((2 ^ n - 1) * 2 ^ k) ≡ a / 2 ^ k * 2 ^ k
bit_and-high_mask n k a h = ground (
  arith,
  one-le-pow k 2,
  bit_and_split k (a / 2 ^ k) (2 ^ n - 1) (a % 2 ^ k) 0,
  bit_and_ones n (a / 2 ^ k) ((div-lt_iff_lt-mul (one-le-pow k 2 (omega arith))).1 h),
  bit_and-zero (a % 2 ^ k),
)

-- Bit `i` of a number.
abbrev pub bit : ℕ → ℕ → ℕ
bit i a = a / 2 ^ i % 2

half_of : (q r : ℕ) → r < 2 → (q * 2 + r) / 2 ≡ q
half_of q r h = omega arith

bit-suc : (i a : ℕ) → bit (suc i) a ≡ bit i (a / 2)
bit-suc i a = ap (λ t. t % 2) (rw (pow-succ' 2 i) (sym (div-div-eq-div-mul a 2 (2 ^ i))))

pub bit-bit_and : (i a b : ℕ) → bit i (bit_and a b) ≡ min (bit i a) (bit i b)
bit-bit_and zero a b = omega (arith, bit_and_halves a b)
bit-bit_and (suc i) a b = ground (
  arith,
  bit-suc i a,
  bit-suc i b,
  bit-suc i (bit_and a b),
  bit_and_halves a b,
  bit-bit_and i (a / 2) (b / 2),
  half_of (bit_and (a / 2) (b / 2)) (min (a % 2) (b % 2)),
)

pub bit-bit_or : (i a b : ℕ) → bit i (bit_or a b) ≡ max (bit i a) (bit i b)
bit-bit_or zero a b = omega (arith, bit_or_halves a b)
bit-bit_or (suc i) a b = ground (
  arith,
  bit-suc i a,
  bit-suc i b,
  bit-suc i (bit_or a b),
  bit_or_halves a b,
  bit-bit_or i (a / 2) (b / 2),
  half_of (bit_or (a / 2) (b / 2)) (max (a % 2) (b % 2)),
)
