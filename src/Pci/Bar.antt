-- ===== src/Pci/Bar.antt =====
-- `ReadBar`, on every branch.
use mikanos_m1mac.Base.{
  subst, true, false, ==_iff, ℕ, ◌+◌, ◌*◌, ◌/◌, ◌%◌, ◌^◌, ◌≤◌, ◌<◌, ◌≡◌, refl, ap, ◌∙◌, bit_and,
  bit_or, ◌<<<◌, leb, ◌==◌, Bool-cases, inl, inr, arith,
}
use mikanos_m1mac.Base.Bits.{bit_or_split, bit_or-zero, zero-bit_or, bit_and-zero, bit_and_halves}
use mikanos_m1mac.Errors.{success, index_out_of_range, WithError}
use mikanos_m1mac.Pci.{Device, read_bar, read_conf_reg, read_at}

module _ (conf : ℕ → ℕ) (dev : Device) where
  -- The BAR with that index, and the one behind it.
  abbrev pub bar : ℕ → ℕ
  bar i = read_conf_reg conf dev (0x10 + 4 * i)

  bar_below : (i : ℕ) → bar i < 2 ^ 32
  unfolding read_conf_reg read_at
  bar_below i = omega arith

-- Bit 2 of a BAR says that it is 64 bits wide.
abbrev pub is_wide : ℕ → ℕ
is_wide b = b / 4 % 2

wide_bit : (b : ℕ) → bit_and b 4 ≡ is_wide b * 4
wide_bit b = omega (
  arith,
  bit_and_halves b 4,
  bit_and_halves (b / 2) 2,
  bit_and_halves (b / 2 / 2) 1,
  bit_and-zero (b / 2 / 2 / 2),
)

-- The upper half of a 64-bit register beside the lower one.
halves : (lo hi : ℕ) → lo < 2 ^ 32 → hi < 2 ^ 32 → bit_or lo (hi <<< 32) ≡ lo + hi * 2 ^ 32
halves lo hi h k = ground (arith, bit_or_split 32 0 hi lo 0, bit_or-zero lo, zero-bit_or hi)

-- Whether `ReadBar` has a register for all of a BAR: an index up to 5, and up to 4 for a 64-bit BAR.
abbrev pub HasBar : ℕ → ℕ → Type 0
HasBar i b = i + is_wide b ≤ 5

abbrev good : ℕ → WithError ℕ
good v = record { value = v; error = success }

-- For an index that has all its registers, `ReadBar` gives the register, and for a 64-bit BAR also
-- the next one as its upper half.
pub read_bar-success :
    (conf : ℕ → ℕ) (dev : Device) (i : ℕ)
    → HasBar i (bar conf dev i)
    → read_bar conf dev i ≡ record {
      value = bar conf dev i + is_wide (bar conf dev i) * bar conf dev (i + 1) * 2 ^ 32;
      error = success;
    }
unfolding read_bar
read_bar-success conf dev i h =
    rw (below_six, first, second)
      (elim (Bool-cases (bit_and (bar conf dev i) 4 == 0)) [
        | inl narrow ↦ rw narrow (same (rw (is_zero narrow) (omega arith)))
        | inr wide ↦ rw (wide, has_next wide) (same (both wide))
      ])
  where
    below_six : leb 6 i ≡ false
    below_six = ground arith

    first : (16 + 4 * i) % 256 ≡ 16 + 4 * i
    first = omega arith

    second : (16 + 4 * i + 4) % 256 ≡ 16 + 4 * (i + 1)
    second = omega arith

    is_zero : bit_and (bar conf dev i) 4 == 0 ≡ true → is_wide (bar conf dev i) ≡ 0
    is_zero e =
        omega (arith, wide_bit (bar conf dev i), (==_iff (bit_and (bar conf dev i) 4) 0).0 e)

    is_one : bit_and (bar conf dev i) 4 == 0 ≡ false → is_wide (bar conf dev i) ≡ 1
    is_one e = ground (arith, wide_bit (bar conf dev i))

    has_next : bit_and (bar conf dev i) 4 == 0 ≡ false → leb 5 i ≡ false
    has_next e = ground (arith, is_one e)

    both :
        bit_and (bar conf dev i) 4 == 0 ≡ false
        → bit_or (bar conf dev i) (bar conf dev (i + 1) <<< 32)
          ≡ bar conf dev i + is_wide (bar conf dev i) * bar conf dev (i + 1) * 2 ^ 32
    both e = rw (is_one e) (
        halves (bar conf dev i) (bar conf dev (i + 1)) (bar_below conf dev i)
          (bar_below conf dev (i + 1))
        ∙ omega arith)

    same : {v w : ℕ} → v ≡ w → good v ≡ good w
    same e = ap good e

-- For any other index, `ReadBar` gives kIndexOutOfRange and the value 0.
read_bar-error :
    (conf : ℕ → ℕ) (dev : Device) (i : ℕ)
    → ¬ HasBar i (bar conf dev i)
    → read_bar conf dev i ≡ record { value = 0; error = index_out_of_range }
unfolding read_bar
read_bar-error conf dev i h = elim (Bool-cases (leb 6 i)) [
  | inl past ↦ rw past refl
  | inr within ↦ rw (within, low within, two_wide (low within)) refl
]
  where
    low : leb 6 i ≡ false → i ≡ 5
    low e = ground (arith, wide_bit (bar conf dev i))

    two_wide : i ≡ 5 → bit_and (read_conf_reg conf dev 36) 4 == 0 ≡ false
    two_wide e =
        ground
          (arith, wide_bit (bar conf dev 5), subst (λ (t : ℕ). ¬ HasBar t (bar conf dev t)) e h)
