-- ===== src/Controller/Effects.antt =====
-- What each function of the driver does to the phases of the ports.
use mikanos_m1mac.Base.{
  ℕ, ◌<◌, ◌≡◌, ◌≢◌, ◌⊎◌, refl, sym, ◌∙◌, ap, subst, ◌==◌, ==_iff, not, ◌&&◌, Bool, Bool-cases, true,
  false, length, set, get_or-set_self, get_or-set_ne, ℕ_discrete, List, arith, inl, inr, false≢true,
}
use mikanos_m1mac.Errors.{Code, success}
use mikanos_m1mac.Outcome.{Holds, then-Holds}
use mikanos_m1mac.Mmio.{Mmio}
use mikanos_m1mac.Port.{is_connected, is_enabled, is_port_reset_changed, reset}
use mikanos_m1mac.Controller.{
  ConfigPhase, not_connected, waiting_addressed, resetting_port, enabling_slot, State, Base,
  port_at, phase, set_phase, send_command, ring_doorbell,
}
use mikanos_m1mac.Controller.Ports.{
  is_not_connected, is_waiting, start_reset, reset_port, enable_slot,
}
use mikanos_m1mac.Controller.Phases.{
  phase_of, is_busy, IsPhasedBut, Follows, AllFollow, set-IsPhasedBut, busy_ne, zero_idle, stay-of,
}

-- At most the port `n` changes its phase, to one that may follow.
pub record Moves (k n : ℕ) (ps qs : List ConfigPhase) (b : ℕ) : Type 0 where
  pub phased : IsPhasedBut k qs b
  pub here : Follows (phase_of ps n) (phase_of qs n)
  pub others : (m : ℕ) → m ≢ n → phase_of qs m ≡ phase_of ps m

pub Moves-AllFollow :
    (k n : ℕ) (ps qs : List ConfigPhase) (b : ℕ) → Moves k n ps qs b → AllFollow ps qs
Moves-AllFollow k n ps qs b h m = elim (ℕ_discrete n m) [
  | yes e ↦ subst (λ x. Follows (phase_of ps x) (phase_of qs x)) e h.here
  | no ne ↦ stay-of (sym (h.others m (λ e. ne (sym e))))
]

pub none-Moves : (k n : ℕ) (ps : List ConfigPhase) (a : ℕ) → IsPhasedBut k ps a → Moves k n ps ps a
none-Moves k n ps a h = record { phased = h; here = Follows.stay; others = λ m ne. refl }

pub set-Moves :
    (k n : ℕ) (ps : List ConfigPhase) (b : ℕ) (p : ConfigPhase)
    → length ps ≡ 256
    → n < 256
    → Follows (phase_of ps n) p
    → IsPhasedBut k (set ps n p) b
    → Moves k n ps (set ps n p) b
set-Moves k n ps b p size lt f h = record {
  phased = h;
  here =
      subst (λ x. Follows (phase_of ps n) x)
        (sym (get_or-set_self ps n p not_connected (omega (arith, size)))) f;
  others = λ m ne. get_or-set_ne ps n m p not_connected (λ e. ne (sym e));
}

-- One phase changes, and the addressing port does not.
pub one-Moves :
    (k n : ℕ) (ps : List ConfigPhase) (a : ℕ) (p : ConfigPhase)
    → IsPhasedBut k ps a
    → n ≢ 0
    → n < 256
    → Follows (phase_of ps n) p
    → (is_busy p ≡ true → n ≡ a)
    → (a ≡ n → is_busy p ≡ true)
    → Moves k n ps (set ps n p) a
one-Moves k n ps a p h ne lt f start at_n = set-Moves k n ps a p h.sized lt f (
    set-IsPhasedBut k k ps a a n p h ne lt h.in_range (λ m m_ne _ busy. h.exclusive m m_ne busy)
      start at_n (λ b_ne _. h.active b_ne))

-- The reset of a port, while no other port is addressed.
reset-Moves :
    (k n : ℕ) (ps : List ConfigPhase)
    → IsPhasedBut k ps 0
    → n ≢ 0
    → n < 256
    → Follows (phase_of ps n) resetting_port
    → Moves k n ps (set ps n resetting_port) n
reset-Moves k n ps h ne lt f = set-Moves k n ps n resetting_port h.sized lt f (
    set-IsPhasedBut k k ps 0 n n resetting_port h ne lt lt
      (λ m m_ne _ busy. absurd (zero_idle k m ps 0 h busy (h.exclusive m m_ne busy))) (λ _. refl)
      (λ _. refl) (λ _ other. absurd (other refl)))

-- A port that `ResetPort` is called for.
pub data IsStarting : ConfigPhase → Type 0 where
  fresh : IsStarting not_connected
  waits : IsStarting waiting_addressed

starting_idle : (p : ConfigPhase) → IsStarting p → is_busy p ≡ false
starting_idle p IsStarting.fresh = refl
starting_idle p IsStarting.waits = refl

starting_waits : (p : ConfigPhase) → IsStarting p → Follows p waiting_addressed
starting_waits p IsStarting.fresh = Follows.wait
starting_waits p IsStarting.waits = Follows.stay

starting_resets : (p : ConfigPhase) → IsStarting p → Follows p resetting_port
starting_resets p IsStarting.fresh = Follows.reset_now
starting_resets p IsStarting.waits = Follows.reset_later

starting_ready :
    (p : ConfigPhase) → IsStarting p → (not (is_not_connected p) && not (is_waiting p)) ≡ false
starting_ready p IsStarting.fresh = refl
starting_ready p IsStarting.waits = refl

module _ {ℓ κ} {H : Type ℓ} {D : Type κ} (mmio : Mmio H) (base : Base) (fuel : ℕ) where
  -- The ports move and the devices stay. The addressing port is the old one or `n`.
  pub record PortMoves (k n : ℕ) (s : State H D) (r : Code × State H D) : Type (ℓ ⊔ κ) where
    pub moves : Moves k n s.port_config_phase r.1.port_config_phase r.1.addressing_port
    pub same_devices : r.1.devices ≡ s.devices
    pub succeeds : r.0 ≡ success
    pub addressed : (r.1.addressing_port ≡ s.addressing_port) ⊎ (r.1.addressing_port ≡ n)

  -- Only the hardware changes.
  hardware_moves :
      (k n : ℕ) (s : State H D) (h : H)
      → IsPhasedBut k s.port_config_phase s.addressing_port
      → PortMoves k n s (success, record s { hardware = h })
  hardware_moves k n s h p = record {
    moves = none-Moves k n _ _ p;
    same_devices = refl;
    succeeds = refl;
    addressed = inl refl;
  }

  waits_moves :
      (k n : ℕ) (s : State H D) (h : H)
      → IsPhasedBut k s.port_config_phase s.addressing_port
      → n ≢ 0
      → n < 256
      → IsStarting (phase n s)
      → s.addressing_port ≢ 0
      → PortMoves k n s (success, set_phase n waiting_addressed (record s { hardware = h }))
  waits_moves k n s h p ne lt start a_ne = record {
    moves =
        one-Moves k n s.port_config_phase s.addressing_port waiting_addressed p ne lt
          (starting_waits (phase n s) start) (λ e. absurd (false≢true e))
          (λ e. absurd (
            busy_ne (phase n s) (starting_idle (phase n s) start)
              (ap (λ x. is_busy (phase x s)) (sym e) ∙ p.active a_ne)));
    same_devices = refl;
    succeeds = refl;
    addressed = inl refl;
  }

  resets_moves :
      (k n : ℕ) (s : State H D) (h : H)
      → IsPhasedBut k s.port_config_phase s.addressing_port
      → n ≢ 0
      → n < 256
      → IsStarting (phase n s)
      → s.addressing_port ≡ 0
      → Holds (PortMoves k n s) (
          start_reset mmio base fuel n (record s {
            hardware = h;
            port_config_phase = set s.port_config_phase n resetting_port;
            addressing_port = n;
          }))
  resets_moves k n s h p ne lt start free =
      then-Holds (PortMoves k n s) (reset mmio fuel (port_at base n) h) _ (λ h'. record {
        moves =
            reset-Moves k n s.port_config_phase
              (subst (λ a. IsPhasedBut k s.port_config_phase a) free p) ne lt
              (starting_resets (phase n s) start);
        same_devices = refl;
        succeeds = refl;
        addressed = inr refl;
      })

  pub reset_port-PortMoves :
      (k n : ℕ) (s : State H D)
      → IsPhasedBut k s.port_config_phase s.addressing_port
      → n ≢ 0
      → n < 256
      → IsStarting (phase n s)
      → Holds (PortMoves k n s) (reset_port mmio base fuel n s)
  unfolding reset_port
  reset_port-PortMoves k n s p ne lt start =
      elim (Bool-cases (is_connected mmio (port_at base n) s.hardware).0) [
        | inr e ↦ rw e (hardware_moves k n s _ p)
        | inl e ↦ elim (Bool-cases (s.addressing_port == 0)) [
          | inr busy ↦
              rw (e, busy)
                (waits_moves k n s (is_connected mmio (port_at base n) s.hardware).1 p ne lt start
                  (λ z. false≢true (sym busy ∙ (==_iff _ _).1 z)))
          | inl free ↦
              rw (e, free, starting_ready (phase n s) start)
                (resets_moves k n s (is_connected mmio (port_at base n) s.hardware).1 p ne lt start
                  ((==_iff _ _).0 free))
        ]
      ]

  pub enable_slot-PortMoves :
      (k n : ℕ) (s : State H D)
      → IsPhasedBut k s.port_config_phase s.addressing_port
      → n ≢ 0
      → n < 256
      → n ≢ k
      → phase n s ≡ resetting_port
      → Holds (PortMoves k n s) (enable_slot mmio base fuel n s)
  unfolding enable_slot send_command ring_doorbell
  enable_slot-PortMoves k n s p ne lt n_ne e = elim (Bool-cases (enabled.0 && reset_completed.0)) [
    | inr f ↦ rw f (hardware_moves k n s _ p)
    | inl t ↦ rw t (record {
      moves =
          one-Moves k n s.port_config_phase s.addressing_port enabling_slot p ne lt
            (subst (λ x. Follows x enabling_slot) (sym e) Follows.enable)
            (λ _. p.exclusive n n_ne (ap is_busy e)) (λ _. refl);
      same_devices = refl;
      succeeds = refl;
      addressed = inl refl;
    })
  ]
    where
      enabled : Bool × H
      enabled = is_enabled mmio (port_at base n) s.hardware

      reset_completed : Bool × H
      reset_completed = is_port_reset_changed mmio (port_at base n) enabled.1
