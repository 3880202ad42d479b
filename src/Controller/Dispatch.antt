-- ===== src/Controller/Dispatch.antt =====
-- `ProcessEvent`: one event of the event ring. The TRB is read when it is found; its slot is given back
-- after the handler, by `Pop`.
use mikanos_m1mac.Base.{ℕ, not, if◌then◌else◌, Option, none, some}
use mikanos_m1mac.Errors.{Code, success, not_implemented}
use mikanos_m1mac.Outcome.{Outcome, returned, ◌>>=◌}
use mikanos_m1mac.Mmio.{Mmio}
use mikanos_m1mac.Trb.{Trb, trb_dynamic_cast}
use mikanos_m1mac.Trb.PortStatusChangeEvent as PortStatusChangeEvent
use mikanos_m1mac.Trb.TransferEvent as TransferEvent
use mikanos_m1mac.Trb.CommandCompletionEvent as CommandCompletionEvent
use mikanos_m1mac.EventRing.{Dma, EventRing, has_front, front, pop}
use mikanos_m1mac.Controller.{Devices, State, Base}
use mikanos_m1mac.Controller.Events.{on_port_status_change, on_transfer, on_command_completion}

-- `if (auto trb = ...) { ... } else ...`
abbrev pub if_cast {ℓ} : {A : Type ℓ} → Option Trb → (Trb → A) → A → A
if_cast none f a = a
if_cast (some trb) f a = f trb

module _ {ℓ κ} {H : Type ℓ} {D : Type κ} (mmio : Mmio H) (ops : Devices D) (base : Base)
    (fuel : ℕ) where
  unfoldable pub dispatch : Trb → State H D → Outcome (Code × State H D)
  dispatch event_trb s =
      if_cast (trb_dynamic_cast TransferEvent.type event_trb)
        (λ trb. on_transfer mmio ops base fuel trb s)
        (if_cast (trb_dynamic_cast PortStatusChangeEvent.type event_trb)
          (λ trb. on_port_status_change mmio ops base fuel trb s)
          (if_cast (trb_dynamic_cast CommandCompletionEvent.type event_trb)
            (λ trb. on_command_completion mmio ops base fuel trb s)
            (returned (not_implemented, s))))

  module _ (dma : Dma H) where
    unfoldable pub process_event : EventRing → State H D → Outcome (Code × EventRing × State H D)
    process_event ring s =
        let seen = has_front mmio dma ring s.hardware in
        if not seen.0
        then returned (success, ring, record s { hardware = seen.1 })
        else (let event = front mmio dma ring seen.1 in
            dispatch event.0 (record s { hardware = event.1 }) >>= λ done.
            let popped = pop mmio ring done.1.hardware in
            returned (done.0, popped.0, record done.1 { hardware = popped.1 }))
