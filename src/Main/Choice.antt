-- ===== src/Main/Choice.antt =====
-- Which host controller the kernel takes.
use mikanos_m1mac.Base.{
  ℕ, ◌≡◌, refl, ◌&&◌, if◌then◌else◌, Bool, Bool-cases, List, [], ◌∷◌, Option, none, some, inl, inr,
  ◌∙◌, ap,
}
use mikanos_m1mac.Pci.{Device}
use mikanos_m1mac.Main.{choose_xhc, is_xhc, is_intel}

abbrev pub or_else {ℓ} : {A : Type ℓ} → Option A → Option A → Option A
or_else (some a) o = some a
or_else none o = o

abbrev pub first_of {ℓ} : {A : Type ℓ} → (A → Bool) → List A → Option A
first_of f [] = none
first_of f (x ∷ xs) = or_else (if f x then some x else none) (first_of f xs)

abbrev pub last_of {ℓ} : {A : Type ℓ} → (A → Bool) → List A → Option A
last_of f [] = none
last_of f (x ∷ xs) = or_else (last_of f xs) (if f x then some x else none)

or_else_assoc {ℓ} :
    {A : Type ℓ} (a b c : Option A) → or_else (or_else a b) c ≡ or_else a (or_else b c)
or_else_assoc (some a) b c = refl
or_else_assoc none b c = refl

or_else-none {ℓ} : {A : Type ℓ} (a : Option A) → or_else a none ≡ a
or_else-none (some a) = refl
or_else-none none = refl

choose_from :
    (conf : ℕ → ℕ) (devices : List Device) (xhc_dev : Option Device)
    → choose_xhc conf devices xhc_dev
      ≡ or_else
          (first_of (λ dev. is_xhc conf dev && is_intel conf dev) devices)
          (or_else (last_of (is_xhc conf) devices) xhc_dev)
unfolding choose_xhc
choose_from conf [] xhc_dev = refl
choose_from conf (dev ∷ devices) xhc_dev = elim (Bool-cases (is_xhc conf dev)) [
  | inr e ↦
      rw (e, or_else_assoc (last_of (is_xhc conf) devices) none xhc_dev)
        (choose_from conf devices xhc_dev)
  | inl e ↦ elim (Bool-cases (is_intel conf dev)) [
    | inl f ↦ rw (e, f) refl
    | inr f ↦
        rw (e, f, or_else_assoc (last_of (is_xhc conf) devices) (some dev) xhc_dev)
          (choose_from conf devices (some dev))
  ]
]

-- The kernel takes the first host controller of Intel that the scan found, and if there is none the
-- last host controller of all.
pub choose_xhc_lem :
    (conf : ℕ → ℕ) (devices : List Device)
    → choose_xhc conf devices none
      ≡ or_else
          (first_of (λ dev. is_xhc conf dev && is_intel conf dev) devices)
          (last_of (is_xhc conf) devices)
choose_xhc_lem conf devices =
    choose_from conf devices none
    ∙ ap (or_else (first_of (λ dev. is_xhc conf dev && is_intel conf dev) devices))
        (or_else-none (last_of (is_xhc conf) devices))
