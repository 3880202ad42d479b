-- ===== src/Ring/Lag.antt =====
-- `Push` against the reader: what stays unread, and where the reader stands.
use mikanos_m1mac.Base.{
  ℕ, suc, ◌+◌, ◌≤◌, ◌<◌, ◌≡◌, sym, ap, ◌∙◌, List, [], ◌∷◌, ◌++◌, ◌⊎◌, inl, inr, arith, dec_lt, All,
}
use mikanos_m1mac.Trb.{Trb, IsWords}
use mikanos_m1mac.Ring.{Ring, push, link}
use mikanos_m1mac.Ring.Writes.{stamp, stamp_fields}
use mikanos_m1mac.Ring.Invariant.{
  IsRing, last_slot, stepped, wrapped, push-stepped, push-wrapped, slot-stepped_ne,
  slot-wrapped-link, push-IsRing, not-not,
}
use mikanos_m1mac.Ring.Window.{slot_back, pending, pending-push}
use mikanos_m1mac.Ring.Reader.{back, HasLink, IsPayload, IsLag}

-- `Push` never moves or resizes the ring.
pub push_keeps :
    (t : Trb) (r : Ring) → ((push t r).1.buf ≡ r.buf) × (last_slot (push t r).1 ≡ last_slot r)
unfolding push
push_keeps t r = ground arith

pub back-push :
    (t : Trb) (r : Ring) (n : ℕ)
    → IsWords t
    → IsRing r
    → n < last_slot r
    → back (push t r).1 (suc n) ≡ back r n
unfolding back slot_back stepped wrapped
back-push t r n w v h = elim (dec_lt (r.write_index + 1) (last_slot r)) [
  | yes room ↦ rw (push-stepped t r w v room) (go room)
  | no full ↦
      let e : r.write_index + 1 ≡ last_slot r = omega (arith, v.in_range) in
      rw (push-wrapped t r w v e) (round e)
]
  where
    go : r.write_index + 1 < last_slot r → back (stepped t r) (suc n) ≡ back r n
    go room = ground (arith, v.in_range)

    round : r.write_index + 1 ≡ last_slot r → back (wrapped t r) (suc n) ≡ back r n
    round e = ground (arith, v.in_range)

pushed-HasLink :
    (t : Trb) (r : Ring) (n : ℕ)
    → IsWords t
    → IsRing r
    → (n ≤ r.write_index) ⊎ HasLink r
    → (suc n ≤ (push t r).1.write_index) ⊎ HasLink (push t r).1
unfolding stepped wrapped
pushed-HasLink t r n w v linked = elim (dec_lt (r.write_index + 1) (last_slot r)) [
  | yes room ↦ rw (push-stepped t r w v room) (stays linked)
  | no full ↦
      let e : r.write_index + 1 ≡ last_slot r = omega (arith, v.in_range) in
      rw (push-wrapped t r w v e) (inr (fresh e))
]
  where
    stays :
        (n ≤ r.write_index) ⊎ HasLink r
        → (suc n ≤ (stepped t r).write_index) ⊎ HasLink (stepped t r)
    stays (inl le) = inl (omega arith)
    stays (inr linked) =
        inr (slot-stepped_ne t r v (last_slot r) (omega (arith, v.in_range)) ∙ linked)

    fresh : r.write_index + 1 ≡ last_slot r → HasLink (wrapped t r)
    fresh e = slot-wrapped-link t r v ∙ ap (λ b. stamp b (link r)) (sym (not-not r.cycle_bit))

All-snoc {ℓ κ} :
    {A : Type ℓ} (P : A → Type κ) (xs : List A) (x : A) → All P xs → P x → All P (xs ++ x ∷ [])
All-snoc P [] x h p = (p, tt)
All-snoc P (y ∷ xs) x h p = (h.0, All-snoc P xs x h.1 p)

-- A TRB pushed where a slot is left is one more to read.
pub push-IsLag :
    (t : Trb) (r : Ring) (n : ℕ)
    → IsWords t
    → IsPayload t
    → IsLag r n
    → n < last_slot r
    → IsLag (push t r).1 (suc n)
push-IsLag t r n w p lag h = record {
  ring = push-IsRing t r w lag.ring;
  fits = rw ((push_keeps t r).1) h;
  linked = pushed-HasLink t r n w lag.ring lag.linked;
  payload = rw (pending-push t r n w lag.ring h) (
      All-snoc IsPayload (pending r n) (stamp r.cycle_bit t) lag.payload
        (rw (stamp_fields r.cycle_bit t).0 p));
}
