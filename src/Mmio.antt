-- ===== src/Mmio.antt =====
-- kernel/register.hpp: memory-mapped registers. The hardware behind them is an interface with a state
-- of its own: a read gives a word and may change that state, and a write changes it.
pub mod Laws
use mikanos_m1mac.Base.{ℕ, zero, suc, ◌+◌, ◌*◌, if◌then◌else◌, Bool}
use mikanos_m1mac.Outcome.{Outcome, returned, out_of_fuel}

-- `MemMapRegister::Read` and `Write`, at the register's address.
pub record Mmio {ℓ} (H : Type ℓ) : Type ℓ where
  pub read : ℕ → H → ℕ × H
  pub write : ℕ → ℕ → H → H

-- `ArrayWrapper::operator[]`, for elements of that size.
abbrev pub element : ℕ → ℕ → ℕ → ℕ
element base size index = base + size * index

-- `while (test);`: a loop that reads until a test fails.
unfoldable pub spin {ℓ} : {H : Type ℓ} → ℕ → (H → Bool × H) → H → Outcome H
spin zero test h = out_of_fuel
spin (suc fuel) test h =
    let rest = spin fuel test (test h).1 in if (test h).0 then rest else returned (test h).1

module _ {ℓ} {H : Type ℓ} (mmio : Mmio H) where
  -- A field of a register.
  abbrev pub read_field : (ℕ → ℕ) → ℕ → H → ℕ × H
  read_field get address h = let r = mmio.read address h in (get r.0, r.1)

  -- Read, change and write back.
  abbrev pub modify : (ℕ → ℕ) → ℕ → H → H
  modify change address h = let r = mmio.read address h in mmio.write address (change r.0) r.1
