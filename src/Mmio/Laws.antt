-- ===== src/Mmio/Laws.antt =====
-- A loop that waits for a register ends when the hardware changes the register in time.
use mikanos_m1mac.Base.{ℕ, zero, suc, ◌<◌, ◌≡◌, refl, Bool, true, false, arith}
use mikanos_m1mac.Outcome.{returned}
use mikanos_m1mac.Mmio.{spin}

module _ {ℓ} {H : Type ℓ} (test : H → Bool × H) where
  -- The hardware after `n` turns of the loop.
  abbrev pub after : ℕ → H → H
  after zero h = h
  after (suc n) h = after n (test h).1

  -- The first test that fails is the one after `n` turns, and there is fuel for it.
  pub spin_ends :
      (fuel n : ℕ) (h : H)
      → n < fuel
      → ((k : ℕ) → k < n → (test (after k h)).0 ≡ true)
      → (test (after n h)).0 ≡ false
      → spin fuel test h ≡ returned (after (suc n) h)
  unfolding spin
  spin_ends zero n h lt busy done = absurd (omega arith)
  spin_ends (suc fuel) zero h lt busy done = rw done refl
  spin_ends (suc fuel) (suc n) h lt busy done =
      rw (busy 0 (omega arith))
        (spin_ends fuel n (test h).1 (omega arith) (λ k k_lt. busy (suc k) (omega arith)) done)
