-- ===== src/Base/Equality.antt =====
-- `operator ==` of a key type: a test with its law.
use Prim.Native.Nat.{ℕ}
use mathlib.Core.Path.{◌≡◌, refl, sym, subst, ◌∙◌}
use mathlib.Core.Logic.{◌↔◌, ◌≢◌}
use mathlib.Core.Bool.{Bool, true, false, false≢true}
use mikanos_m1mac.Base.Tests.{◌==◌, ==_iff}

pub record Eq {ℓ} (K : Type ℓ) : Type ℓ where
  pub beq : K → K → Bool
  pub beq_iff : (a b : K) → (beq a b ≡ true) ↔ (a ≡ b)

instance abbrev pub nat_Eq : Eq ℕ
nat_Eq = record { beq = ◌==◌; beq_iff = ==_iff }

module _ {ℓ} {K : Type ℓ} ⦃e : Eq K⦄ where
  pub beq_self : (a : K) → e.beq a a ≡ true
  beq_self a = (e.beq_iff a a).1 refl

  pub beq_ne : (a b : K) → a ≢ b → e.beq a b ≡ false
  beq_ne a b h = go (e.beq a b) (e.beq_iff a b).0
    where
      go : (t : Bool) → (t ≡ true → a ≡ b) → t ≡ false
      go true f = absurd (h (f refl))
      go false f = refl

  pub beq_sym : (a b : K) → e.beq a b ≡ false → e.beq b a ≡ false
  beq_sym a b h = go (e.beq b a) (e.beq_iff b a).0
    where
      go : (t : Bool) → (t ≡ true → b ≡ a) → t ≡ false
      go true f = absurd (false≢true (sym (subst (λ x. e.beq a x ≡ false) (f refl) h) ∙ beq_self a))
      go false f = refl
