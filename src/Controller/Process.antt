-- ===== src/Controller/Process.antt =====
-- `ProcessEvent` keeps the phases well formed, whatever the event is.
use mikanos_m1mac.Base.{ℕ, ◌≡◌, ◌≢◌, sym, ◌==◌, ==_iff, Bool-cases, inl, inr}
use mikanos_m1mac.Outcome.{Holds, >>=-Holds}
use mikanos_m1mac.Mmio.{Mmio}
use mikanos_m1mac.Trb.{Trb, trb_type, trb_dynamic_cast}
use mikanos_m1mac.Trb.PortStatusChangeEvent as PortStatusChangeEvent
use mikanos_m1mac.EventRing.{Dma, EventRing, has_front, front}
use mikanos_m1mac.Controller.{Devices, State, Base}
use mikanos_m1mac.Controller.Dispatch.{dispatch, process_event}
use mikanos_m1mac.Controller.Handlers.{
  IsReady, Advances, stays, on_port_status_change-Advances, on_transfer-Advances,
}
use mikanos_m1mac.Controller.Addressed.{on_command_completion-Advances}

-- An event about a port names one: the ports count from 1.
abbrev pub NamesPort : Trb → Type 0
NamesPort trb = trb_type trb ≡ PortStatusChangeEvent.type → PortStatusChangeEvent.port_id trb ≢ 0

module _ {ℓ κ} {H : Type ℓ} {D : Type κ} (mmio : Mmio H) (ops : Devices D) (base : Base)
    (fuel : ℕ) where
  pub dispatch-Advances :
      (trb : Trb) (s : State H D)
      → IsReady mmio ops base fuel s
      → NamesPort trb
      → Holds (Advances mmio ops base fuel s) (dispatch mmio ops base fuel trb s)
  unfolding dispatch trb_dynamic_cast
  dispatch-Advances trb s h names = elim (Bool-cases (32 == trb_type trb)) [
    | inl e ↦ rw e (on_transfer-Advances mmio ops base fuel trb s h)
    | inr e ↦ elim (Bool-cases (34 == trb_type trb)) [
      | inl f ↦
          rw (e, f)
            (on_port_status_change-Advances mmio ops base fuel trb s h
              (names (sym ((==_iff _ _).0 f))))
      | inr f ↦ elim (Bool-cases (33 == trb_type trb)) [
        | inl g ↦ rw (e, f, g) (on_command_completion-Advances mmio ops base fuel trb s h)
        | inr g ↦ rw (e, f, g) (stays mmio ops base fuel s h)
      ]
    ]
  ]

  module _ (dma : Dma H) where
    -- The TRB that `ProcessEvent` handles, if there is one.
    abbrev pub next_event : EventRing → State H D → Trb
    next_event ring s = (front mmio dma ring (has_front mmio dma ring s.hardware).1).0

    pub process_event-Advances :
        (ring : EventRing) (s : State H D)
        → IsReady mmio ops base fuel s
        → NamesPort (next_event ring s)
        → Holds
            (λ r. Advances mmio ops base fuel s (r.0, r.2))
            (process_event mmio ops base fuel dma ring s)
    unfolding process_event
    process_event-Advances ring s h names =
        elim (Bool-cases (has_front mmio dma ring s.hardware).0) [
          | inr e ↦ rw e (stays mmio ops base fuel s h)
          | inl e ↦ rw e (
              >>=-Holds (Advances mmio ops base fuel s)
                (λ r. Advances mmio ops base fuel s (r.0, r.2)) (dispatch mmio ops base fuel _ _) _
                (dispatch-Advances (next_event ring s) _ h names) (λ r done. done))
        ]
