-- ===== src/Controller/Waiting.antt =====
-- The commands that the driver waits for, and the ports that wait for their turn.
use mikanos_m1mac.Base.{◌+◌, ◌/◌, ◌-◌, ◌≡◌, refl, ◌∙◌, ap, false, arith, dec_lt, ltb}
use mikanos_m1mac.Mmio.{Mmio}
use mikanos_m1mac.Trb.{Trb, IsWords, trb_type}
use mikanos_m1mac.Trb.PortStatusChangeEvent as PortStatusChangeEvent
use mikanos_m1mac.Trb.CommandCompletionEvent as CommandCompletionEvent
use mikanos_m1mac.Ring.{Ring, address, push}
use mikanos_m1mac.Ring.Writes.{stamp, stamp_fields, push-address}
use mikanos_m1mac.Ring.Invariant.{
  IsRing, slot, last_slot, stepped, wrapped, push-stepped, push-wrapped, slot-stepped_self,
  slot-wrapped_self,
}
use mikanos_m1mac.Controller.{Base, trb_at}

pushed_slot :
    (t : Trb) (r : Ring)
    → IsWords t
    → IsRing r
    → (slot (push t r).1 r.write_index ≡ stamp r.cycle_bit t)
      × (address (push t r).1.buf ≡ address r.buf)
unfolding stepped wrapped
pushed_slot t r w v = elim (dec_lt (r.write_index + 1) (last_slot r)) [
  | yes room ↦ rw (push-stepped t r w v room) (slot-stepped_self t r v, refl)
  | no full ↦
      let e : r.write_index + 1 ≡ last_slot r = omega (arith, v.in_range) in
      rw (push-wrapped t r w v e) (slot-wrapped_self t r v, refl)
]

-- A completion event that points to a command on the command ring, with the address that `Push` gave
-- for it, leads back to a command of that type, also when the push went around the end of the ring.
pub issuer-push :
    (cmd trb : Trb) (r : Ring)
    → IsWords cmd
    → IsRing r
    → CommandCompletionEvent.pointer trb ≡ (push cmd r).0
    → trb_type (trb_at (push cmd r).1 (CommandCompletionEvent.pointer trb)) ≡ trb_type cmd
issuer-push cmd trb r w v e =
    let (placed, same_buf) = pushed_slot cmd r w v in
    let index : (CommandCompletionEvent.pointer trb - address (push cmd r).1.buf) / 16
        ≡ r.write_index =
      omega (arith, e, push-address cmd r, same_buf) in
    let inside : ltb (CommandCompletionEvent.pointer trb) (address (push cmd r).1.buf) ≡ false =
      ground (arith, e, push-address cmd r, same_buf) in
    rw inside (
      ap (λ i. trb_type (slot (push cmd r).1 i)) index
      ∙ (ap trb_type placed ∙ (stamp_fields r.cycle_bit cmd).0))
