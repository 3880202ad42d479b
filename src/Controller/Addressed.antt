-- ===== src/Controller/Addressed.antt =====
-- The completed address command: the next port that waits is reset, and the device is initialised.
use mikanos_m1mac.Base.{
  ℕ, suc, ◌+◌, ◌<◌, ◌≡◌, ◌≢◌, refl, sym, ◌∙◌, ap, subst, ◌==◌, ==_iff, Bool-cases, true, false,
  length, set, List, [], ◌∷◌, arith, inl, inr, false≢true, some, Option-cases, none-ne-some,
}
use mikanos_m1mac.Errors.{Code, success, is_error}
use mikanos_m1mac.Outcome.{Holds, map-Holds, >>=-Holds, then-Holds}
use mikanos_m1mac.Mmio.{Mmio}
use mikanos_m1mac.Trb.{Trb}
use mikanos_m1mac.Trb.CommandCompletionEvent as CommandCompletionEvent
use mikanos_m1mac.Controller.{
  ConfigPhase, waiting_addressed, addressing_device, initializing_device, Devices, State, Base,
  phase,
}
use mikanos_m1mac.Controller.Ports.{is_waiting}
use mikanos_m1mac.Controller.Address.{initialize_device}
use mikanos_m1mac.Controller.Events.{
  is_addressing, first_waiting, port_of, reset_waiting, reset_first, on_device_addressed,
  on_command_completion,
}
use mikanos_m1mac.Controller.Phases.{
  phase_of, is_busy, IsPhasedBut, IsPhased, Follows, AllFollow, AllFollow-refl, set-IsPhasedBut,
  set-AllFollow, busy_ne, zero_idle,
}
use mikanos_m1mac.Controller.Effects.{Moves-AllFollow, IsStarting, PortMoves, reset_port-PortMoves}
use mikanos_m1mac.Controller.Handlers.{
  IsReady, Advances, stays, phase_ne_zero, on_slot_enabled-Advances,
  on_endpoints_configured-Advances,
}

-- Where the loop over the ports stops.
first_waiting-some :
    (i : ℕ) (ps : List ConfigPhase) (j : ℕ)
    → first_waiting i ps ≡ some j
    → (m : ℕ) × (j ≡ i + m) × (m < length ps) × (phase_of ps m ≡ waiting_addressed)
unfolding first_waiting
first_waiting-some i [] j h = absurd (none-ne-some j h)
first_waiting-some i (p ∷ ps) j h = elim (Bool-cases (is_waiting p)) [
  | inl e ↦ (0, ground arith, omega arith, ground arith)
  | inr e ↦
      let (m, j_eq, lt, waits) = first_waiting-some (suc i) ps j (rw (← h, e) refl) in
      (suc m, omega arith, omega arith, waits)
]

-- `addressing_port = 0`, while the port `n` is still in its phase.
released_IsPhasedBut : (n : ℕ) (ps : List ConfigPhase) → IsPhased ps n → n ≢ 0 → IsPhasedBut n ps 0
released_IsPhasedBut n ps h ne = record {
  sized = h.sized;
  in_range = omega arith;
  no_port = h.no_port;
  exclusive = λ m m_ne busy. absurd (m_ne (h.exclusive m (zero_idle 0 m ps n h busy) busy));
  active = λ z. absurd (z refl);
}

-- The port `n` gets a phase in which it is idle, so it is no exception any more.
settled_IsPhased :
    (n : ℕ) (ps : List ConfigPhase) (a : ℕ) (p : ConfigPhase)
    → IsPhasedBut n ps a
    → n ≢ 0
    → n < 256
    → is_busy p ≡ false
    → a ≢ n
    → IsPhased (set ps n p) a
settled_IsPhased n ps a p h ne lt idle a_ne =
    set-IsPhasedBut n 0 ps a a n p h ne lt h.in_range (λ m _ m_ne busy. h.exclusive m m_ne busy)
      (λ busy. absurd (busy_ne p idle busy)) (λ e. absurd (a_ne e)) (λ b_ne _. h.active b_ne)

module _ {ℓ κ} {H : Type ℓ} {D : Type κ} (mmio : Mmio H) (ops : Devices D) (base : Base)
    (fuel : ℕ) where
  -- What the loop over the ports leaves for the port `k`, whose address was just assigned.
  pub record Woken (k : ℕ) (s : State H D) (r : Code × State H D) : Type (ℓ ⊔ κ) where
    pub phased : IsPhasedBut k r.1.port_config_phase r.1.addressing_port
    pub moved : AllFollow s.port_config_phase r.1.port_config_phase
    pub kept : phase k r.1 ≡ phase k s
    pub others : r.1.addressing_port ≢ k
    pub same_devices : r.1.devices ≡ s.devices
    pub succeeds : r.0 ≡ success

  Woken-from :
      (k i : ℕ) (s : State H D) (r : Code × State H D)
      → s.addressing_port ≢ k
      → i ≢ k
      → PortMoves mmio base fuel k i s r
      → Woken k s r
  Woken-from k i s r a_ne i_ne h = record {
    phased = h.moves.phased;
    moved = Moves-AllFollow k i _ _ _ h.moves;
    kept = h.moves.others k (λ e. i_ne (sym e));
    others =
        λ e. elim h.addressed [ inl same ↦ a_ne (sym same ∙ e) | inr new ↦ i_ne (sym new ∙ e) ];
    same_devices = h.same_devices;
    succeeds = h.succeeds;
  }

  reset_waiting-Woken :
      (k : ℕ) (s : State H D)
      → IsPhasedBut k s.port_config_phase s.addressing_port
      → s.addressing_port ≢ k
      → is_waiting (phase k s) ≡ false
      → Holds (Woken k s) (reset_waiting mmio ops base fuel s)
  unfolding reset_waiting reset_first
  reset_waiting-Woken k s h a_ne busy = elim (Option-cases (first_waiting 0 s.port_config_phase)) [
    | inl e ↦ rw e (record {
      phased = h;
      moved = AllFollow-refl _;
      kept = refl;
      others = a_ne;
      same_devices = refl;
      succeeds = refl;
    })
    | inr (i, e) ↦
        let (m, i_eq, lt, waits) = first_waiting-some 0 s.port_config_phase i e in
        let i_m : i ≡ m = omega (arith, i_eq) in
        let at_i : phase i s ≡ waiting_addressed = ap (λ x. phase x s) i_m ∙ waits in
        let i_ne : i ≢ k = λ z.
          false≢true (sym busy ∙ (ap (λ x. is_waiting (phase x s)) (sym z) ∙ ap is_waiting at_i)) in
        let bound : i < 256 = omega (arith, i_eq, lt, h.sized) in
        let ne : i ≢ 0 = λ z. false≢true (
          ap is_waiting (sym h.no_port)
          ∙ (ap (λ x. is_waiting (phase x s)) (sym z) ∙ ap is_waiting at_i)) in
        rw e (
          map-Holds (PortMoves mmio base fuel k i s) (Woken k s) _
            (λ r p. Woken-from k i s r a_ne i_ne p)
            (reset_port-PortMoves mmio base fuel k i s h ne bound
              (subst IsStarting (sym at_i) IsStarting.waits)))
  ]

  settles :
      (k slot_id : ℕ) (s : State H D) (r : Code × State H D)
      → k ≢ 0
      → k < 256
      → ops.has_slot slot_id s.devices ≡ true
      → phase k s ≡ addressing_device
      → Woken k s r
      → Holds (Advances mmio ops base fuel s) (initialize_device mmio ops base k slot_id r.1)
  unfolding initialize_device
  settles k slot_id s r ne lt found at_k w = rw (ap (ops.has_slot slot_id) w.same_devices ∙ found) (
      then-Holds (Advances mmio ops base fuel s) (ops.start_initialize slot_id r.1.devices) _
        (λ started. (
          settled_IsPhased k _ _ initializing_device w.phased ne lt refl w.others,
          set-AllFollow s.port_config_phase r.1.port_config_phase k initializing_device
              (omega (arith, w.phased.sized)) w.moved
              (subst (λ x. Follows x initializing_device) (sym at_k) Follows.initialize),
        )))

  pub on_device_addressed-Advances :
      (slot_id : ℕ) (s : State H D)
      → IsReady mmio ops base fuel s
      → Holds (Advances mmio ops base fuel s) (on_device_addressed mmio ops base fuel slot_id s)
  unfolding on_device_addressed
  on_device_addressed-Advances slot_id s h = elim (Bool-cases (ops.has_slot slot_id s.devices)) [
    | inr e ↦ rw e (stays mmio ops base fuel s h)
    | inl e ↦ elim (Bool-cases (n == s.addressing_port)) [
      | inr f ↦ rw (e, f) (stays mmio ops base fuel s h)
      | inl f ↦ elim (Bool-cases (is_addressing (phase n s))) [
        | inr g ↦ rw (e, f, g) (stays mmio ops base fuel s h)
        | inl g ↦
            let at_n = addressing (phase n s) g in
            let ne = phase_ne_zero mmio ops base fuel n addressing_device s h at_n refl in
            rw (e, f, g)
              (>>=-Holds (Woken n released) (Advances mmio ops base fuel s)
                (reset_waiting mmio ops base fuel released) _
                (reset_waiting-Woken n released
                  (released_IsPhasedBut n s.port_config_phase
                    (subst (λ a. IsPhased s.port_config_phase a) (sym ((==_iff _ _).0 f)) h) ne)
                  (λ z. ne (sym z)) (ap is_waiting at_n))
                (λ r w.
                  rw (ap is_error w.succeeds)
                    (settles n slot_id released r ne (omega arith) e at_n w)))
      ]
    ]
  ]
    where
      n : ℕ
      n = port_of mmio ops base fuel slot_id s

      released : State H D
      released = record s { addressing_port = 0 }

      addressing : (p : ConfigPhase) → is_addressing p ≡ true → p ≡ addressing_device
      addressing p e = ground arith

  pub on_command_completion-Advances :
      (trb : Trb) (s : State H D)
      → IsReady mmio ops base fuel s
      → Holds (Advances mmio ops base fuel s) (on_command_completion mmio ops base fuel trb s)
  unfolding on_command_completion
  on_command_completion-Advances trb s h = ground (
    arith,
    stays mmio ops base fuel s h,
    on_slot_enabled-Advances mmio ops base fuel slot_id s h,
    on_device_addressed-Advances slot_id s h,
    on_endpoints_configured-Advances mmio ops base fuel slot_id s h,
  )
    where
      slot_id : ℕ
      slot_id = CommandCompletionEvent.slot_id trb
