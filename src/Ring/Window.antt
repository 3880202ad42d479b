-- ===== src/Ring/Window.antt =====
-- The TRBs on a ring that its reader has yet to see, as a list, and how `Push` extends it.
use mikanos_m1mac.Base.{
  ℕ, zero, suc, ◌+◌, ◌-◌, ◌≤◌, ◌<◌, ◌≡◌, ◌≢◌, sym, ap, ap₂, List, [], ◌∷◌, ◌++◌, arith, leb,
  if◌then◌else◌, dec_lt,
}
use mikanos_m1mac.Trb.{Trb, IsWords}
use mikanos_m1mac.Ring.{Ring, push}
use mikanos_m1mac.Ring.Writes.{stamp}
use mikanos_m1mac.Ring.Invariant.{
  IsRing, last_slot, slot, stepped, wrapped, push-stepped, push-wrapped, slot-stepped_self,
  slot-stepped_ne, slot-wrapped_self, slot-wrapped_ne,
}

-- The slot that is `n` TRBs behind position `w`, going round at `m`.
unfoldable pub slot_back : ℕ → ℕ → ℕ → ℕ
slot_back m w n = if leb n w then w - n else w + m - n

-- The last `n` TRBs, oldest first.
unfoldable pub pending : Ring → ℕ → List Trb
pending r zero = []
pending r (suc n) = slot r (slot_back (last_slot r) r.write_index (suc n)) ∷ pending r n

pub slot_back_bounds : (m w n : ℕ) → w < m → n ≤ m → slot_back m w n ≤ m
unfolding slot_back
slot_back_bounds m w n h k = ground arith

slot_back_inner :
    (m w n : ℕ) → w < m → 0 < n → n < m → (slot_back m w n ≢ w) × (slot_back m w n < m)
unfolding slot_back
slot_back_inner m w n h k l = ground arith

slot_back-suc : (m w n : ℕ) → slot_back m (w + 1) (suc n) ≡ slot_back m w n
unfolding slot_back
slot_back-suc m w n = ground arith

slot_back-wrap : (m w n : ℕ) → w + 1 ≡ m → n < m → slot_back m 0 (suc n) ≡ slot_back m w n
unfolding slot_back
slot_back-wrap m w n h k = ground arith

slot_back-zero : (m w : ℕ) → slot_back m w 0 ≡ w
unfolding slot_back
slot_back-zero m w = ground arith

module _ (t : Trb) (r : Ring) (v : IsRing r) where
  pending-stepped :
      (n : ℕ)
      → n < last_slot r
      → pending (stepped t r) (suc n) ≡ pending r n ++ stamp r.cycle_bit t ∷ []
  unfolding pending stepped
  pending-stepped zero h =
      ap (λ s. s ∷ [])
        (rw
          (slot_back-suc (last_slot r) r.write_index 0, slot_back-zero (last_slot r) r.write_index)
          (slot-stepped_self t r v))
  pending-stepped (suc n) h =
      ap₂ ◌∷◌
        (rw (slot_back-suc (last_slot r) r.write_index (suc n)) (
          slot-stepped_ne t r v _ (λ e.
            (slot_back_inner (last_slot r) r.write_index (suc n) v.in_range (omega arith) h).0
              (sym e))))
        (pending-stepped n (omega arith))

  pending-wrapped :
      (n : ℕ)
      → r.write_index + 1 ≡ last_slot r
      → n < last_slot r
      → pending (wrapped t r) (suc n) ≡ pending r n ++ stamp r.cycle_bit t ∷ []
  unfolding pending wrapped
  pending-wrapped zero full h =
      ap (λ s. s ∷ [])
        (rw
          (
            slot_back-wrap (last_slot r) r.write_index 0 full h,
            slot_back-zero (last_slot r) r.write_index,
          )
          (slot-wrapped_self t r v))
  pending-wrapped (suc n) full h =
      let inner = slot_back_inner (last_slot r) r.write_index (suc n) v.in_range (omega arith) h in
      ap₂ ◌∷◌
        (rw (slot_back-wrap (last_slot r) r.write_index (suc n) full h)
          (slot-wrapped_ne t r v _ (λ e. inner.0 (sym e)) (omega (arith, inner.1))))
        (pending-wrapped n full (omega arith))

-- `Push` appends the TRB, with the producer's cycle bit, to the `n` unread ones, if there is a slot
-- left for it.
pub pending-push :
    (t : Trb) (r : Ring) (n : ℕ)
    → IsWords t
    → IsRing r
    → n < last_slot r
    → pending (push t r).1 (suc n) ≡ pending r n ++ stamp r.cycle_bit t ∷ []
pending-push t r n w v h = elim (dec_lt (r.write_index + 1) (last_slot r)) [
  | yes room ↦ rw (push-stepped t r w v room) (pending-stepped t r v n h)
  | no full ↦
      let e : r.write_index + 1 ≡ last_slot r = omega (arith, v.in_range) in
      rw (push-wrapped t r w v e) (pending-wrapped t r v n e h)
]
