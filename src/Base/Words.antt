-- ===== src/Base/Words.antt =====
-- Machine words as native numbers: the casts of C, shifts, and the bit fields of packed structs.
use Prim.Native.Nat.{ℕ, ◌+◌, ◌*◌, ◌/◌, ◌%◌, ◌^◌}

abbrev pub u8 : ℕ → ℕ
u8 n = n % 2 ^ 8

abbrev pub u16 : ℕ → ℕ
u16 n = n % 2 ^ 16

abbrev pub u32 : ℕ → ℕ
u32 n = n % 2 ^ 32

abbrev pub u64 : ℕ → ℕ
u64 n = n % 2 ^ 64

-- `x >> k`, and `x << k` before the cast to the word's width.
infixl 60 ◌>>>◌ ◌<<<◌
abbrev pub ◌>>>◌ : ℕ → ℕ → ℕ
x >>> k = x / 2 ^ k

abbrev pub ◌<<<◌ : ℕ → ℕ → ℕ
x <<< k = x * 2 ^ k

-- Reading and writing the bit field of `len` bits from bit `lo` on.
abbrev pub field : ℕ → ℕ → ℕ → ℕ
field lo len w = w / 2 ^ lo % 2 ^ len

abbrev pub set_field : ℕ → ℕ → ℕ → ℕ → ℕ
set_field lo len v w = w / 2 ^ (lo + len) * 2 ^ (lo + len) + v % 2 ^ len * 2 ^ lo + w % 2 ^ lo
