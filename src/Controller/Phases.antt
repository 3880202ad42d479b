-- ===== src/Controller/Phases.antt =====
-- What the driver keeps of `port_config_phase` and `addressing_port`, on the two as such: `ps` are the
-- phases and `a` is the port. Port 0 is no port.
use mikanos_m1mac.Base.{
  ℕ, ◌<◌, ◌≡◌, ◌≢◌, refl, sym, ◌∙◌, ap, subst, Bool, true, false, List, length, get_or, set,
  length-set, get_or-set_self, get_or-set_ne, ℕ_discrete, arith, false≢true,
}
use mikanos_m1mac.Controller.{
  ConfigPhase, not_connected, waiting_addressed, resetting_port, enabling_slot, addressing_device,
  initializing_device, configuring_endpoints, configured,
}

abbrev pub phase_of : List ConfigPhase → ℕ → ConfigPhase
phase_of ps n = get_or ps n not_connected

-- The phases from the reset to the address.
abbrev pub is_busy : ConfigPhase → Bool
is_busy resetting_port = true
is_busy enabling_slot = true
is_busy addressing_device = true
is_busy p = false

-- A port that is busy is the addressing port, and the addressing port is busy. The port `k` may be an
-- exception, while a handler is in the middle of its work.
pub record IsPhasedBut (k : ℕ) (ps : List ConfigPhase) (a : ℕ) : Type 0 where
  pub sized : length ps ≡ 256
  pub in_range : a < 256
  pub no_port : phase_of ps 0 ≡ not_connected
  pub exclusive : (n : ℕ) → n ≢ k → is_busy (phase_of ps n) ≡ true → n ≡ a
  pub active : a ≢ 0 → is_busy (phase_of ps a) ≡ true

abbrev pub IsPhased : List ConfigPhase → ℕ → Type 0
IsPhased = IsPhasedBut 0

-- The order of the phases.
pub data Follows : ConfigPhase → ConfigPhase → Type 0 where
  stay : {p : ConfigPhase} → Follows p p
  wait : Follows not_connected waiting_addressed
  reset_now : Follows not_connected resetting_port
  reset_later : Follows waiting_addressed resetting_port
  enable : Follows resetting_port enabling_slot
  address : Follows enabling_slot addressing_device
  initialize : Follows addressing_device initializing_device
  configure : Follows initializing_device configuring_endpoints
  complete : Follows configuring_endpoints configured

abbrev pub AllFollow : List ConfigPhase → List ConfigPhase → Type 0
AllFollow ps qs = (n : ℕ) → Follows (phase_of ps n) (phase_of qs n)

pub stay-of : {p q : ConfigPhase} → p ≡ q → Follows p q
stay-of {p} {q} e = subst (λ x. Follows p x) e stay

pub AllFollow-refl : (ps : List ConfigPhase) → AllFollow ps ps
AllFollow-refl ps n = stay

-- One port of `qs` changes its phase.
pub set-AllFollow :
    (ps qs : List ConfigPhase) (n : ℕ) (p : ConfigPhase)
    → n < length qs
    → AllFollow ps qs
    → Follows (phase_of ps n) p
    → AllFollow ps (set qs n p)
set-AllFollow ps qs n p lt h f m = elim (ℕ_discrete n m) [
  | yes e ↦
      subst (λ x. Follows (phase_of ps x) (phase_of (set qs n p) x)) e
        (subst (λ x. Follows (phase_of ps n) x) (sym (get_or-set_self qs n p not_connected lt)) f)
  | no ne ↦
      subst (λ x. Follows (phase_of ps m) x) (sym (get_or-set_ne qs n m p not_connected ne)) (h m)
]

set_at :
    (ps : List ConfigPhase) (n m : ℕ) (p : ConfigPhase)
    → n < length ps
    → n ≡ m
    → phase_of (set ps n p) m ≡ p
set_at ps n m p lt e =
    subst (λ x. phase_of (set ps n p) x ≡ p) e (get_or-set_self ps n p not_connected lt)

pub busy_ne : (p : ConfigPhase) → is_busy p ≡ false → is_busy p ≢ true
busy_ne p e h = false≢true (sym e ∙ h)

-- A write of one phase, with a new addressing port `b`: what `b` has to satisfy.
pub set-IsPhasedBut :
    (j k : ℕ) (ps : List ConfigPhase) (a b n : ℕ) (p : ConfigPhase)
    → IsPhasedBut j ps a
    → n ≢ 0
    → n < 256
    → b < 256
    → ((m : ℕ) → m ≢ k → m ≢ n → is_busy (phase_of ps m) ≡ true → m ≡ b)
    → (is_busy p ≡ true → n ≡ b)
    → (b ≡ n → is_busy p ≡ true)
    → (b ≢ 0 → b ≢ n → is_busy (phase_of ps b) ≡ true)
    → IsPhasedBut k (set ps n p) b
set-IsPhasedBut j k ps a b n p h ne lt b_lt only start at_n at_b = record {
  sized = length-set ps n p ∙ h.sized;
  in_range = b_lt;
  no_port = get_or-set_ne ps n 0 p not_connected ne ∙ h.no_port;
  exclusive = λ m m_ne busy. elim (ℕ_discrete n m) [
    | yes e ↦ sym e ∙ start (ap is_busy (sym (set_at ps n m p (omega (arith, h.sized)) e)) ∙ busy)
    | no other ↦
        only m m_ne (λ e. other (sym e))
          (ap is_busy (sym (get_or-set_ne ps n m p not_connected other)) ∙ busy)
  ];
  active = λ b_ne. elim (ℕ_discrete n b) [
    | yes e ↦ ap is_busy (set_at ps n b p (omega (arith, h.sized)) e) ∙ at_n (sym e)
    | no other ↦
        ap is_busy (get_or-set_ne ps n b p not_connected other) ∙ at_b b_ne (λ e. other (sym e))
  ];
}

pub zero_idle :
    (k m : ℕ) (ps : List ConfigPhase) (a : ℕ)
    → IsPhasedBut k ps a
    → is_busy (phase_of ps m) ≡ true
    → m ≢ 0
zero_idle k m ps a h busy z =
    busy_ne not_connected refl
      (ap is_busy (sym h.no_port) ∙ (ap (λ x. is_busy (phase_of ps x)) (sym z) ∙ busy))
