-- ===== src/Controller/Progress.antt =====
-- What the functions for a device in a slot do to the phases of the ports.
use mikanos_m1mac.Base.{
  ℕ, ◌<◌, ◌≡◌, ◌≢◌, refl, sym, ap, ◌∙◌, subst, ◌==◌, ◌||◌, ltb, Bool-cases, true, false, set, List,
  [], ◌∷◌, arith, inl, inr,
}
use mikanos_m1mac.Errors.{Code}
use mikanos_m1mac.Outcome.{Holds, >>=-Holds, then-Holds}
use mikanos_m1mac.Mmio.{Mmio}
use mikanos_m1mac.Context.{root_hub_port_num}
use mikanos_m1mac.Port.{speed}
use mikanos_m1mac.Endpoint.{EndpointConfig}
use mikanos_m1mac.Controller.{
  ConfigPhase, enabling_slot, addressing_device, initializing_device, configuring_endpoints,
  configured, Devices, State, Base, port_at, phase, send_command, ring_doorbell,
}
use mikanos_m1mac.Controller.Address.{
  prepare_slot, prepare_ep0, address_device, complete_configuration, doorbell_at, ep0_dci,
}
use mikanos_m1mac.Controller.Endpoints.{
  configure_endpoint, configure_each, configure_endpoints, is_unknown_speed,
}
use mikanos_m1mac.Controller.Phases.{is_busy, IsPhasedBut, Follows, busy_ne}
use mikanos_m1mac.Controller.Effects.{Moves, none-Moves, one-Moves}

module _ {ℓ κ} {H : Type ℓ} {D : Type κ} (mmio : Mmio H) (ops : Devices D) (base : Base) where
  -- The phases and the addressing port are as before.
  abbrev pub Keeps : State H D → State H D → Type 0
  Keeps s s' =
      (s'.port_config_phase ≡ s.port_config_phase) × (s'.addressing_port ≡ s.addressing_port)

  abbrev pub StateMoves : ℕ → ℕ → State H D → Code × State H D → Type 0
  StateMoves k n s r = Moves k n s.port_config_phase r.1.port_config_phase r.1.addressing_port

  prepare-Keeps :
      (port_id slot_id : ℕ) (s : State H D)
      → Holds
          (Keeps s)
          (prepare_ep0 mmio ops base slot_id (prepare_slot mmio ops base port_id slot_id s))
  unfolding prepare_ep0 prepare_slot
  prepare-Keeps port_id slot_id s =
      then-Holds (Keeps s) (ops.alloc_transfer_ring slot_id ep0_dci 32 _) _ (λ ring. (refl, refl))

  configure_endpoint-Keeps :
      (slot_id port_speed : ℕ) (config : EndpointConfig) (s : State H D)
      → Holds (Keeps s) (configure_endpoint mmio ops base slot_id port_speed config s)
  unfolding configure_endpoint
  configure_endpoint-Keeps slot_id port_speed config s =
      elim (Bool-cases ((config.ep_id == 0) || ltb 31 config.ep_id)) [
        | inl e ↦ rw e tt
        | inr e ↦ rw e (
            then-Holds (Keeps s) (ops.alloc_transfer_ring slot_id config.ep_id 32 _) _
              (λ ring. (refl, refl)))
      ]

  configure_each-Keeps :
      (slot_id port_speed : ℕ) (configs : List EndpointConfig) (s : State H D)
      → Holds (Keeps s) (configure_each mmio ops base slot_id port_speed configs s)
  unfolding configure_each
  configure_each-Keeps slot_id port_speed [] s = (refl, refl)
  configure_each-Keeps slot_id port_speed (config ∷ configs) s =
      >>=-Holds (Keeps s) (Keeps s) _ _ (configure_endpoint-Keeps slot_id port_speed config s)
        (λ s1 kept.
          subst
            (λ (v : List ConfigPhase × ℕ).
              Holds (λ (s2 : State H D). (s2.port_config_phase ≡ v.0) × (s2.addressing_port ≡ v.1))
                (configure_each mmio ops base slot_id port_speed configs s1))
            (λ i. (kept.0 i, kept.1 i)) (configure_each-Keeps slot_id port_speed configs s1))

  -- A phase that is written in a state that keeps the phases and the addressing port.
  after_Keeps :
      (k n : ℕ) (p : ConfigPhase) (s s' : State H D)
      → Keeps s s'
      → IsPhasedBut k s.port_config_phase s.addressing_port
      → n ≢ 0
      → n < 256
      → Follows (phase n s) p
      → (is_busy p ≡ true → n ≡ s.addressing_port)
      → (s.addressing_port ≡ n → is_busy p ≡ true)
      → Moves k n s.port_config_phase (set s'.port_config_phase n p) s'.addressing_port
  after_Keeps k n p s s' kept h ne lt f start at_n =
      subst (λ (v : List ConfigPhase × ℕ). Moves k n s.port_config_phase (set v.0 n p) v.1)
        (λ i. (sym kept.0 i, sym kept.1 i))
        (one-Moves k n s.port_config_phase s.addressing_port p h ne lt f start at_n)

  pub address_device-StateMoves :
      (k slot_id : ℕ) (s : State H D)
      → IsPhasedBut k s.port_config_phase s.addressing_port
      → phase s.addressing_port s ≡ enabling_slot
      → s.addressing_port ≢ 0
      → Holds
          (StateMoves k s.addressing_port s)
          (address_device mmio ops base s.addressing_port slot_id s)
  unfolding address_device send_command ring_doorbell
  address_device-StateMoves k slot_id s h e ne =
      then-Holds (StateMoves k n s)
        (ops.alloc_device slot_id (doorbell_at mmio ops base slot_id s.hardware).0 s.devices) _
        (λ made. elim (Bool-cases (ops.has_slot slot_id made.1)) [
          | inr f ↦ rw f (none-Moves k n _ _ h)
          | inl f ↦ rw f (
              >>=-Holds (Keeps s) (StateMoves k n s)
                (prepare_ep0 mmio ops base slot_id (
                  prepare_slot mmio ops base n slot_id (record s {
                    hardware = (doorbell_at mmio ops base slot_id s.hardware).1;
                    devices = made.1;
                  })))
                _ (prepare-Keeps n slot_id _)
                (λ s2 kept.
                  then-Holds (StateMoves k n s) (ops.load_dcbaa slot_id s2.devices) _ (λ loaded.
                    after_Keeps k n addressing_device s s2 kept h ne h.in_range
                      (subst (λ x. Follows x addressing_device) (sym e) Follows.address) (λ _. refl)
                      (λ _. refl))))
        ])
    where
      n : ℕ
      n = s.addressing_port

  -- The device stays idle, or its phase is set.
  idle-Moves :
      (k n : ℕ) (p q : ConfigPhase) (s s' : State H D)
      → Keeps s s'
      → IsPhasedBut k s.port_config_phase s.addressing_port
      → n ≢ 0
      → n < 256
      → phase n s ≡ p
      → is_busy p ≡ false
      → is_busy q ≡ false
      → Follows p q
      → Moves k n s.port_config_phase (set s'.port_config_phase n q) s'.addressing_port
  idle-Moves k n p q s s' kept h ne lt e p_idle q_idle f =
      after_Keeps k n q s s' kept h ne lt (subst (λ x. Follows x q) (sym e) f)
        (λ busy. absurd (busy_ne q q_idle busy))
        (λ a. absurd (
          busy_ne p p_idle (
            ap is_busy (sym e)
            ∙ (ap (λ x. is_busy (phase x s)) (sym a) ∙ h.active (λ z. ne (sym a ∙ z))))))

  pub configure_endpoints-StateMoves :
      (k slot_id : ℕ) (s : State H D)
      → IsPhasedBut k s.port_config_phase s.addressing_port
      → let n = root_hub_port_num (ops.slot_context slot_id s.devices) in
        n ≢ 0
        → phase n s ≡ initializing_device
        → Holds (StateMoves k n s) (configure_endpoints mmio ops base slot_id s)
  unfolding configure_endpoints send_command ring_doorbell
  configure_endpoints-StateMoves k slot_id s h ne e =
      elim (Bool-cases (is_unknown_speed (speed mmio (port_at base n) s.hardware).0)) [
        | inl t ↦ rw t (none-Moves k n _ _ h)
        | inr f ↦ rw f (
            >>=-Holds (Keeps s) (StateMoves k n s)
              (configure_each mmio ops base slot_id (speed mmio (port_at base n) s.hardware).0
                (ops.endpoint_configs slot_id s.devices) _)
              _ (configure_each-Keeps slot_id _ _ _)
              (λ s3 kept.
                idle-Moves k n initializing_device configuring_endpoints s s3 kept h ne
                  (omega arith) e refl refl Follows.configure))
      ]
    where
      n : ℕ
      n = root_hub_port_num (ops.slot_context slot_id s.devices)

  pub complete_configuration-StateMoves :
      (k n slot_id : ℕ) (s : State H D)
      → IsPhasedBut k s.port_config_phase s.addressing_port
      → n ≢ 0
      → n < 256
      → phase n s ≡ configuring_endpoints
      → Holds (StateMoves k n s) (complete_configuration mmio ops base n slot_id s)
  unfolding complete_configuration
  complete_configuration-StateMoves k n slot_id s h ne lt e =
      elim (Bool-cases (ops.has_slot slot_id s.devices)) [
        | inr f ↦ rw f (none-Moves k n _ _ h)
        | inl f ↦ rw f (
            then-Holds (StateMoves k n s) (ops.on_endpoints_configured slot_id s.devices) _ (λ done.
              idle-Moves k n configuring_endpoints configured s s (refl, refl) h ne lt e refl refl
                Follows.complete))
      ]
