-- ===== src/Controller/Handlers.antt =====
-- The event handlers: the phases stay well formed, and each port moves along its order.
use mikanos_m1mac.Base.{
  ℕ, ◌<◌, ◌≡◌, ◌≢◌, refl, sym, ◌∙◌, ap, subst, ◌&&◌, Bool, Bool-cases, true, false, arith, inl, inr,
  false≢true,
}
use mikanos_m1mac.Errors.{Code, is_error}
use mikanos_m1mac.Outcome.{Outcome, Holds, map-Holds, then-Holds}
use mikanos_m1mac.Mmio.{Mmio}
use mikanos_m1mac.Trb.{Trb}
use mikanos_m1mac.Trb.PortStatusChangeEvent as PortStatusChangeEvent
use mikanos_m1mac.Trb.TransferEvent as TransferEvent
use mikanos_m1mac.Controller.{
  ConfigPhase, not_connected, resetting_port, enabling_slot, initializing_device,
  configuring_endpoints, Devices, State, Base, phase,
}
use mikanos_m1mac.Controller.Ports.{is_not_connected, is_resetting, configure_port}
use mikanos_m1mac.Controller.Events.{
  is_enabling, is_initializing, is_configuring, port_of, on_port_status_change, after_transfer,
  on_transfer, on_slot_enabled, on_endpoints_configured,
}
use mikanos_m1mac.Controller.Phases.{IsPhased, AllFollow, AllFollow-refl}
use mikanos_m1mac.Controller.Effects.{
  Moves, Moves-AllFollow, IsStarting, PortMoves, reset_port-PortMoves, enable_slot-PortMoves,
}
use mikanos_m1mac.Controller.Progress.{
  address_device-StateMoves, configure_endpoints-StateMoves, complete_configuration-StateMoves,
}

module _ {ℓ κ} {H : Type ℓ} {D : Type κ} (mmio : Mmio H) (ops : Devices D) (base : Base)
    (fuel : ℕ) where
  abbrev pub IsReady : State H D → Type 0
  IsReady s = IsPhased s.port_config_phase s.addressing_port

  -- The state stays ready, and each port keeps its phase or moves on by one.
  abbrev pub Advances : State H D → Code × State H D → Type 0
  Advances s r = IsReady r.1 × AllFollow s.port_config_phase r.1.port_config_phase

  pub stays :
      (s : State H D) → IsReady s → IsReady s × AllFollow s.port_config_phase s.port_config_phase
  stays s h = (h, AllFollow-refl s.port_config_phase)

  pub from_Moves :
      (n : ℕ) (s : State H D) (m : Outcome (Code × State H D))
      → Holds (λ r. Moves 0 n s.port_config_phase r.1.port_config_phase r.1.addressing_port) m
      → Holds (Advances s) m
  from_Moves n s m = map-Holds _ (Advances s) m (λ r h. (h.phased, Moves-AllFollow 0 n _ _ _ h))

  pub from_PortMoves :
      (n : ℕ) (s : State H D) (m : Outcome (Code × State H D))
      → Holds (PortMoves mmio base fuel 0 n s) m
      → Holds (Advances s) m
  from_PortMoves n s m =
      map-Holds _ (Advances s) m (λ r h. (h.moves.phased, Moves-AllFollow 0 n _ _ _ h.moves))

  pub on_port_status_change-Advances :
      (trb : Trb) (s : State H D)
      → IsReady s
      → PortStatusChangeEvent.port_id trb ≢ 0
      → Holds (Advances s) (on_port_status_change mmio ops base fuel trb s)
  unfolding on_port_status_change
  on_port_status_change-Advances trb s h ne = elim (Bool-cases (is_not_connected (phase n s))) [
    | inl e ↦ rw e (
        from_PortMoves n s _ (
          reset_port-PortMoves mmio base fuel 0 n s h ne (omega arith)
            (subst IsStarting (sym (fresh (phase n s) e)) IsStarting.fresh)))
    | inr e ↦ elim (Bool-cases (is_resetting (phase n s))) [
      | inl f ↦
          rw (e, f)
            (from_PortMoves n s _ (
              enable_slot-PortMoves mmio base fuel 0 n s h ne (omega arith) ne
                (resetting (phase n s) f)))
      | inr f ↦ rw (e, f) (stays s h)
    ]
  ]
    where
      n : ℕ
      n = PortStatusChangeEvent.port_id trb

      fresh : (p : ConfigPhase) → is_not_connected p ≡ true → p ≡ not_connected
      fresh p e = ground arith

      resetting : (p : ConfigPhase) → is_resetting p ≡ true → p ≡ resetting_port
      resetting p e = ground arith

  pub configure_port-Advances :
      (n : ℕ) (s : State H D)
      → IsReady s
      → n ≢ 0
      → n < 256
      → Holds (Advances s) (configure_port mmio base fuel n s)
  unfolding configure_port
  configure_port-Advances n s h ne lt = elim (Bool-cases (is_not_connected (phase n s))) [
    | inl e ↦ rw e (
        from_PortMoves n s _ (
          reset_port-PortMoves mmio base fuel 0 n s h ne lt
            (subst IsStarting (sym (fresh (phase n s) e)) IsStarting.fresh)))
    | inr e ↦ rw e (stays s h)
  ]
    where
      fresh : (p : ConfigPhase) → is_not_connected p ≡ true → p ≡ not_connected
      fresh p e = ground arith

  pub phase_ne_zero :
      (n : ℕ) (p : ConfigPhase) (s : State H D)
      → IsReady s
      → phase n s ≡ p
      → is_not_connected p ≡ false
      → n ≢ 0
  phase_ne_zero n p s h e f z = false≢true (
      sym f
      ∙ (ap is_not_connected (sym e)
          ∙ (ap (λ x. is_not_connected (phase x s)) z ∙ ap is_not_connected h.no_port)))

  after_transfer-Advances :
      (slot_id : ℕ) (s : State H D)
      → IsReady s
      → Holds (Advances s) (after_transfer mmio ops base fuel slot_id s)
  unfolding after_transfer
  after_transfer-Advances slot_id s h =
      elim (Bool-cases (ops.is_initialized slot_id s.devices && is_initializing (phase n s))) [
        | inr e ↦ rw e (stays s h)
        | inl e ↦
            let phase_eq = initializing (ops.is_initialized slot_id s.devices) (phase n s) e in
            rw e (
              from_Moves n s _ (
                configure_endpoints-StateMoves mmio ops base 0 slot_id s h
                  (phase_ne_zero n initializing_device s h phase_eq refl) phase_eq))
      ]
    where
      n : ℕ
      n = port_of mmio ops base fuel slot_id s

      initializing :
          (b : Bool) (p : ConfigPhase) → (b && is_initializing p) ≡ true → p ≡ initializing_device
      initializing b p e = ground arith

  pub on_transfer-Advances :
      (trb : Trb) (s : State H D)
      → IsReady s
      → Holds (Advances s) (on_transfer mmio ops base fuel trb s)
  unfolding on_transfer
  on_transfer-Advances trb s h = elim (Bool-cases (ops.has_slot slot_id s.devices)) [
    | inr e ↦ rw e (stays s h)
    | inl e ↦ rw e (
        then-Holds (Advances s) (ops.on_transfer_event slot_id trb s.devices) _ (λ taken.
          elim (Bool-cases (is_error taken.0)) [
            | inl f ↦ rw f (stays s h)
            | inr f ↦ rw f (after_transfer-Advances slot_id (record s { devices = taken.1 }) h)
          ]))
  ]
    where
      slot_id : ℕ
      slot_id = TransferEvent.slot_id trb

  pub on_slot_enabled-Advances :
      (slot_id : ℕ) (s : State H D)
      → IsReady s
      → Holds (Advances s) (on_slot_enabled mmio ops base fuel slot_id s)
  unfolding on_slot_enabled
  on_slot_enabled-Advances slot_id s h = elim (Bool-cases (is_enabling (phase n s))) [
    | inr e ↦ rw e (stays s h)
    | inl e ↦
        let phase_eq = enabling (phase n s) e in
        rw e (
          from_Moves n s _ (
            address_device-StateMoves mmio ops base 0 slot_id s h phase_eq
              (phase_ne_zero n enabling_slot s h phase_eq refl)))
  ]
    where
      n : ℕ
      n = s.addressing_port

      enabling : (p : ConfigPhase) → is_enabling p ≡ true → p ≡ enabling_slot
      enabling p e = ground arith

  pub on_endpoints_configured-Advances :
      (slot_id : ℕ) (s : State H D)
      → IsReady s
      → Holds (Advances s) (on_endpoints_configured mmio ops base fuel slot_id s)
  unfolding on_endpoints_configured
  on_endpoints_configured-Advances slot_id s h =
      elim (Bool-cases (ops.has_slot slot_id s.devices)) [
        | inr e ↦ rw e (stays s h)
        | inl e ↦ elim (Bool-cases (is_configuring (phase n s))) [
          | inr f ↦ rw (e, f) (stays s h)
          | inl f ↦
              let phase_eq = configuring (phase n s) f in
              rw (e, f)
                (from_Moves n s _ (
                  complete_configuration-StateMoves mmio ops base 0 n slot_id s h
                    (phase_ne_zero n configuring_endpoints s h phase_eq refl) (omega arith)
                    phase_eq))
        ]
      ]
    where
      n : ℕ
      n = port_of mmio ops base fuel slot_id s

      configuring : (p : ConfigPhase) → is_configuring p ≡ true → p ≡ configuring_endpoints
      configuring p e = ground arith
