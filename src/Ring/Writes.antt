-- ===== src/Ring/Writes.antt =====
-- `CopyToLast`: what a slot holds after its writes, and while they are made.
use mikanos_m1mac.Base.{
  ℕ, zero, suc, ◌+◌, ◌*◌, ◌/◌, ◌^◌, ◌<◌, ◌≡◌, refl, ap, bit_and, bit_or, Bool, true, false,
  bool_bit, take, ◌⊎◌, inl, inr, arith,
}
use mikanos_m1mac.Base.Bits.{bit_and-high_mask, bit_or_disjoint}
use mikanos_m1mac.Trb.{Trb, IsWords, cycle_bit, trb_type}
use mikanos_m1mac.Ring.{Ring, address, push, copy_writes, apply_writes}

-- The TRB with the cycle bit that the producer gives it.
abbrev pub stamp : Bool → Trb → Trb
stamp cycle t = record t { d3 = t.d3 / 2 * 2 + bool_bit cycle }

-- `(d3 & 0xfffffffe) | cycle` replaces the lowest bit.
pub cycle_word :
    (cycle : Bool) (w : ℕ)
    → w < 2 ^ 32
    → bit_or (bit_and w 0xffff_fffe) (bool_bit cycle) ≡ w / 2 * 2 + bool_bit cycle
cycle_word true w h =
    rw (bit_and-high_mask 31 1 w (omega arith)) (bit_or_disjoint 1 (w / 2) 1 (omega arith))
cycle_word false w h =
    rw (bit_and-high_mask 31 1 w (omega arith)) (bit_or_disjoint 1 (w / 2) 0 (omega arith))

pub apply_writes-stamp :
    (cycle : Bool) (t old : Trb)
    → IsWords t
    → apply_writes (copy_writes cycle t) old ≡ stamp cycle t
apply_writes-stamp cycle t old v = ap (λ w. record t { d3 = w }) (cycle_word cycle t.d3 v.word3)

-- A stamped TRB keeps its type and shows the producer's cycle bit.
pub stamp_fields :
    (cycle : Bool) (t : Trb)
    → (trb_type (stamp cycle t) ≡ trb_type t) × (cycle_bit (stamp cycle t) ≡ bool_bit cycle)
stamp_fields true t = omega arith
stamp_fields false t = omega arith

pub stamp-IsWords : (cycle : Bool) (t : Trb) → IsWords t → IsWords (stamp cycle t)
stamp-IsWords true t v = omega arith
stamp-IsWords false t v = omega arith

-- However many of the writes of `CopyToLast` have been made, the slot either still has the last
-- word, and so the cycle bit, that it had before, or it holds the whole new TRB: a consumer that
-- trusts a slot only by its cycle bit never sees a half-written TRB.
pub copy_writes_ordered :
    (n : ℕ) (cycle : Bool) (t old : Trb)
    → IsWords t
    → ((apply_writes (take n (copy_writes cycle t)) old).d3 ≡ old.d3)
      ⊎ (apply_writes (take n (copy_writes cycle t)) old ≡ stamp cycle t)
copy_writes_ordered zero cycle t old v = inl refl
copy_writes_ordered (suc zero) cycle t old v = inl refl
copy_writes_ordered (suc (suc zero)) cycle t old v = inl refl
copy_writes_ordered (suc (suc (suc zero))) cycle t old v = inl refl
copy_writes_ordered (suc (suc (suc (suc zero)))) cycle t old v =
    inr (apply_writes-stamp cycle t old v)
copy_writes_ordered (suc (suc (suc (suc (suc n))))) cycle t old v =
    inr (apply_writes-stamp cycle t old v)

-- `Push` returns the address of the slot that it writes.
pub push-address : (t : Trb) (r : Ring) → (push t r).0 ≡ address r.buf + 16 * r.write_index
unfolding push
push-address t r = refl
