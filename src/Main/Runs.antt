-- ===== src/Main/Runs.antt =====
-- The kernel's two loops, from the start of the program.
use mikanos_m1mac.Base.{ℕ, zero, suc, ◌+◌, ◌<◌, ◌≤◌, ◌≢◌, Bool-cases, inl, inr, arith}
use mikanos_m1mac.Outcome.{◌>>=◌, Holds, >>=-Holds}
use mikanos_m1mac.Mmio.{Mmio}
use mikanos_m1mac.Port.{is_connected}
use mikanos_m1mac.EventRing.{Dma, EventRing}
use mikanos_m1mac.Controller.{Devices, State, Base, port_at}
use mikanos_m1mac.Controller.Ports.{configure_port}
use mikanos_m1mac.Controller.Handlers.{IsReady, Advances, configure_port-Advances}
use mikanos_m1mac.Controller.Process.{NamesPort, next_event, process_event-Advances}
use mikanos_m1mac.Controller.Reachable.{IsBoot, boot-IsReady}
use mikanos_m1mac.Main.{configure_one, configure_ports, process_events}

module _ {ℓ κ} {H : Type ℓ} {D : Type κ} (mmio : Mmio H) (ops : Devices D) (base : Base)
    (fuel : ℕ) where
  abbrev Ready : State H D → Type 0
  Ready = IsReady mmio ops base fuel

  configure_one-Ready :
      (i : ℕ) (s : State H D)
      → Ready s
      → i ≢ 0
      → i < 256
      → Holds Ready (configure_one mmio ops base fuel i s)
  unfolding configure_one
  configure_one-Ready i s h ne lt =
      elim (Bool-cases
        (is_connected mmio (port_at base i) (is_connected mmio (port_at base i) s.hardware).1).0) [
          | inr e ↦ rw e h
          | inl e ↦ rw e (
              >>=-Holds (Advances mmio ops base fuel s) Ready (configure_port mmio base fuel i _) _
                (configure_port-Advances mmio ops base fuel i _ h ne lt) (λ r done. done.0))
        ]

  configure_ports-Ready :
      (n i : ℕ) (s : State H D)
      → Ready s
      → i ≢ 0
      → i + n ≤ 256
      → Holds Ready (configure_ports mmio ops base fuel i n s)
  unfolding configure_ports
  configure_ports-Ready zero i s h ne le = h
  configure_ports-Ready (suc n) i s h ne le =
      >>=-Holds Ready Ready _ _ (configure_one-Ready i s h ne (omega arith))
        (λ s' ready. configure_ports-Ready n (i + 1) s' ready (omega arith) (omega arith))

  module _ (dma : Dma H) where
    process_events-Ready :
        (n : ℕ) (ring : EventRing) (s : State H D)
        → ((ring' : EventRing) (s' : State H D)
            → NamesPort (next_event mmio ops base fuel dma ring' s'))
        → Ready s
        → Holds (λ r. Ready r.1) (process_events mmio ops base fuel dma n ring s)
    unfolding process_events
    process_events-Ready zero ring s names h = h
    process_events-Ready (suc n) ring s names h =
        >>=-Holds (λ r. Advances mmio ops base fuel s (r.0, r.2)) (λ r. Ready r.1) _ _
          (process_event-Advances mmio ops base fuel dma ring s h (names ring s))
          (λ r done. process_events-Ready n r.1 r.2 names done.0)

    -- After the kernel has gone through its ports, 255 at most, and through any number of events, the
    -- phases of the ports are well formed: no port but the addressing port is between its reset and
    -- its address, whatever the hardware and the devices do.
    pub kernel-Ready :
        (max_ports n : ℕ) (ring : EventRing) (s : State H D)
        → max_ports < 256
        → IsBoot mmio ops base fuel dma s
        → ((ring' : EventRing) (s' : State H D)
            → NamesPort (next_event mmio ops base fuel dma ring' s'))
        → Holds
            (λ r. IsReady mmio ops base fuel r.1)
            (configure_ports mmio ops base fuel 1 max_ports s
              >>= process_events mmio ops base fuel dma n ring)
    kernel-Ready max_ports n ring s lt boot names =
        >>=-Holds Ready (λ r. Ready r.1) _ _
          (configure_ports-Ready max_ports 1 s (boot-IsReady mmio ops base fuel dma s boot)
            (omega arith) (omega arith))
          (λ s' ready. process_events-Ready n ring s' names ready)
