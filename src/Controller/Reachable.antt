-- ===== src/Controller/Reachable.antt =====
-- Runs of the driver: ports are configured at the start and events are processed, while the hardware
-- and the devices' memory may change in any way between two steps.
use mikanos_m1mac.Base.{
  ℕ, ◌<◌, ◌≤◌, ◌≡◌, ◌≢◌, refl, sym, ◌∙◌, ap, subst, true, List, replicate, length-replicate,
  get_or-replicate, arith,
}
use mikanos_m1mac.Errors.{Code}
use mikanos_m1mac.Outcome.{returned, Holds}
use mikanos_m1mac.Mmio.{Mmio}
use mikanos_m1mac.EventRing.{Dma, EventRing}
use mikanos_m1mac.Controller.{
  ConfigPhase, not_connected, waiting_addressed, resetting_port, enabling_slot, addressing_device,
  initializing_device, configuring_endpoints, configured, Devices, State, Base, phase,
}
use mikanos_m1mac.Controller.Ports.{configure_port}
use mikanos_m1mac.Controller.Dispatch.{process_event}
use mikanos_m1mac.Controller.Phases.{
  is_busy, IsPhased, Follows, AllFollow, AllFollow-refl, zero_idle, busy_ne,
}
use mikanos_m1mac.Controller.Handlers.{IsReady, Advances, configure_port-Advances}
use mikanos_m1mac.Controller.Process.{NamesPort, next_event, process_event-Advances}

-- The place of a phase in the order.
abbrev pub rank : ConfigPhase → ℕ
rank not_connected = 0
rank waiting_addressed = 1
rank resetting_port = 2
rank enabling_slot = 3
rank addressing_device = 4
rank initializing_device = 5
rank configuring_endpoints = 6
rank configured = 7

pub Follows-rank : {p q : ConfigPhase} → Follows p q → rank p ≤ rank q
Follows-rank Follows.stay = omega arith
Follows-rank Follows.wait = omega arith
Follows-rank Follows.reset_now = omega arith
Follows-rank Follows.reset_later = omega arith
Follows-rank Follows.enable = omega arith
Follows-rank Follows.address = omega arith
Follows-rank Follows.initialize = omega arith
Follows-rank Follows.configure = omega arith
Follows-rank Follows.complete = omega arith

module _ {ℓ κ} {H : Type ℓ} {D : Type κ} (mmio : Mmio H) (ops : Devices D) (base : Base)
    (fuel : ℕ) where
  module _ (dma : Dma H) where
    pub data Step : EventRing × State H D → EventRing × State H D → Type (ℓ ⊔ κ) where
      configure :
          {ring : EventRing} {s s' : State H D} {c : Code}
          → (n : ℕ) → n ≢ 0
          → n < 256
          → configure_port mmio base fuel n s ≡ returned (c, s')
          → Step (ring, s) (ring, s')
      event :
          {ring ring' : EventRing} {s s' : State H D} {c : Code}
          → NamesPort (next_event mmio ops base fuel dma ring s)
          → process_event mmio ops base fuel dma ring s ≡ returned (c, ring', s')
          → Step (ring, s) (ring', s')
      outside :
          {ring : EventRing} {s : State H D}
          → (h : H) → (d : D) → Step (ring, s) (ring, record s { hardware = h; devices = d })

    pub data Reach : EventRing × State H D → EventRing × State H D → Type (ℓ ⊔ κ) where
      here : {a : EventRing × State H D} → Reach a a
      then : {a b c : EventRing × State H D} → Step a b → Reach b c → Reach a c

    -- One step of a run.
    pub step_advances :
        (a b : EventRing × State H D)
        → Step a b
        → IsReady mmio ops base fuel a.1
        → IsReady mmio ops base fuel b.1 × AllFollow a.1.port_config_phase b.1.port_config_phase
    step_advances a b (Step.configure {ring} {s} {s'} {c} n ne lt e) h =
        subst (Holds (Advances mmio ops base fuel s)) e
          (configure_port-Advances mmio ops base fuel n s h ne lt)
    step_advances a b (Step.event {ring} {ring'} {s} {s'} {c} names e) h =
        subst (Holds (λ r. Advances mmio ops base fuel s (r.0, r.2))) e
          (process_event-Advances mmio ops base fuel dma ring s h names)
    step_advances a b (Step.outside h' d) h = (h, AllFollow-refl _)

    pub reach-IsReady :
        (a b : EventRing × State H D)
        → Reach a b
        → IsReady mmio ops base fuel a.1
        → IsReady mmio ops base fuel b.1
    reach-IsReady a b Reach.here h = h
    reach-IsReady a b (Reach.then {b = c} step rest) h =
        reach-IsReady c b rest (step_advances a c step h).0

    -- As the program starts: no port is connected and none is addressed.
    abbrev pub IsBoot : State H D → Type 0
    IsBoot s = (s.port_config_phase ≡ replicate 256 not_connected) × (s.addressing_port ≡ 0)

    pub boot-IsReady : (s : State H D) → IsBoot s → IsReady mmio ops base fuel s
    boot-IsReady s (phases, none_addressed) =
        subst (λ (v : List ConfigPhase × ℕ). IsPhased v.0 v.1)
          (λ i. (sym phases i, sym none_addressed i))
          (record {
            sized = length-replicate 256 not_connected;
            in_range = omega arith;
            no_port = refl;
            exclusive = λ n _ busy. absurd (
                busy_ne not_connected refl
                  (ap is_busy (sym (get_or-replicate 256 n not_connected)) ∙ busy));
            active = λ ne. absurd (ne refl);
          })

    -- In every run from the start of the program, made of calls that return, at most one port at a time
    -- is between its reset and its address, and that port is `addressing_port`, whatever the hardware
    -- does and in whatever order the events come, as long as the events about ports name one.
    pub one_port_addressed :
        (a b : EventRing × State H D)
        → IsBoot a.1
        → Reach a b
        → (m n : ℕ) → is_busy (phase m b.1) ≡ true
        → is_busy (phase n b.1) ≡ true
        → (m ≡ n) × (m ≡ b.1.addressing_port)
    one_port_addressed a b boot run m n m_busy n_busy =
        let h = reach-IsReady a b run (boot-IsReady a.1 boot) in
        let m_eq = h.exclusive m (zero_idle 0 m _ _ h m_busy) m_busy in
        (m_eq ∙ sym (h.exclusive n (zero_idle 0 n _ _ h n_busy) n_busy), m_eq)

    -- In such runs the phase of a port only moves forward in the order of `ConfigPhase`: from any state
    -- that is reached, no further run takes a port back.
    pub phases_ordered :
        (a b : EventRing × State H D)
        → IsBoot a.1
        → Reach a b
        → (c : EventRing × State H D) → Reach b c
        → (n : ℕ) → rank (phase n b.1) ≤ rank (phase n c.1)
    phases_ordered a b boot run = go b (reach-IsReady a b run (boot-IsReady a.1 boot))
      where
        go :
            (b : EventRing × State H D)
            → IsReady mmio ops base fuel b.1
            → (c : EventRing × State H D) → Reach b c
            → (n : ℕ) → rank (phase n b.1) ≤ rank (phase n c.1)
        go b h c Reach.here n = omega arith
        go b h c (Reach.then {b = d} step rest) n =
            let (ready, follow) = step_advances b d step h in
            omega (arith, Follows-rank (follow n), go d ready c rest n)
