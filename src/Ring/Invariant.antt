-- ===== src/Ring/Invariant.antt =====
-- The representation invariant of `Ring`: sizes, and the cycle bits on both sides of the write
-- position.
use mikanos_m1mac.Base.{
  ℕ, ◌+◌, ◌-◌, ◌%◌, ◌^◌, ◌≤◌, ◌<◌, ◌≡◌, ◌≢◌, refl, ◌∙◌, Bool, true, false, not, bool_bit, arith,
  length, get_or, set, length-set, get_or-set_self, get_or-set_ne, dec_lt, ℕ_discrete,
}
use mikanos_m1mac.Trb.{Trb, IsWords, zero_trb, cycle_bit}
use mikanos_m1mac.Ring.{Ring, address, push, link}
use mikanos_m1mac.Ring.Writes.{stamp, cycle_word, stamp_fields}

-- The slot that holds the link TRB, and so how many TRBs fit.
abbrev pub last_slot : Ring → ℕ
last_slot r = r.buf_size - 1

abbrev pub slot : Ring → ℕ → Trb
slot r i = get_or r.mem i zero_trb

pub record IsRing (r : Ring) : Type 0 where
  pub two_slots : 2 ≤ r.buf_size
  pub small : r.buf_size ≤ 2 ^ 32
  pub memory : length r.mem ≡ r.buf_size
  pub in_range : r.write_index < last_slot r
  pub aligned : address r.buf % 64 ≡ 0
  pub base : address r.buf < 2 ^ 48
  -- Behind the write position lie TRBs of this lap, from it on those of the lap before.
  pub behind : (i : ℕ) → i < r.write_index → cycle_bit (slot r i) ≡ bool_bit r.cycle_bit
  pub ahead :
      (i : ℕ)
      → r.write_index ≤ i
      → i < last_slot r
      → cycle_bit (slot r i) ≡ bool_bit (not r.cycle_bit)

-- The two ways through `Push`, in closed form.
unfoldable pub stepped : Trb → Ring → Ring
stepped t r = record r {
  mem = set r.mem r.write_index (stamp r.cycle_bit t);
  write_index = r.write_index + 1;
}

unfoldable pub wrapped : Trb → Ring → Ring
unfolding stepped
wrapped t r = record (stepped t r) {
  mem = set (stepped t r).mem (last_slot r) (stamp r.cycle_bit (link r));
  write_index = 0;
  cycle_bit = not r.cycle_bit;
}

link-IsWords : (r : Ring) → IsRing r → IsWords (link r)
link-IsWords r v = omega arith

pub push-stepped :
    (t : Trb) (r : Ring)
    → IsWords t
    → IsRing r
    → r.write_index + 1 < last_slot r
    → (push t r).1 ≡ stepped t r
unfolding push stepped
push-stepped t r w v h = ground (arith, cycle_word r.cycle_bit t.d3 w.word3)

pub push-wrapped :
    (t : Trb) (r : Ring)
    → IsWords t
    → IsRing r
    → r.write_index + 1 ≡ last_slot r
    → (push t r).1 ≡ wrapped t r
unfolding push wrapped
push-wrapped t r w v h = ground (
  arith,
  cycle_word r.cycle_bit t.d3 w.word3,
  cycle_word r.cycle_bit (link r).d3 (link-IsWords r v).word3,
)

pub not-not : (b : Bool) → not (not b) ≡ b
not-not true = refl
not-not false = refl

module _ (t : Trb) (r : Ring) (v : IsRing r) where
  pub slot-stepped_self : slot (stepped t r) r.write_index ≡ stamp r.cycle_bit t
  unfolding stepped
  slot-stepped_self = get_or-set_self r.mem r.write_index _ _ (omega arith)

  pub slot-stepped_ne : (i : ℕ) → r.write_index ≢ i → slot (stepped t r) i ≡ slot r i
  unfolding stepped
  slot-stepped_ne i ne = get_or-set_ne r.mem r.write_index i _ _ ne

  pub slot-wrapped_self : slot (wrapped t r) r.write_index ≡ stamp r.cycle_bit t
  unfolding wrapped
  slot-wrapped_self =
      get_or-set_ne (stepped t r).mem (last_slot r) r.write_index _ _ (omega arith)
      ∙ slot-stepped_self

  pub slot-wrapped-link : slot (wrapped t r) (last_slot r) ≡ stamp r.cycle_bit (link r)
  unfolding wrapped
  slot-wrapped-link =
      get_or-set_self (stepped t r).mem (last_slot r) _ _
        (omega (arith, length-set r.mem r.write_index (stamp r.cycle_bit t)))

  pub slot-wrapped_ne :
      (i : ℕ) → r.write_index ≢ i → last_slot r ≢ i → slot (wrapped t r) i ≡ slot r i
  unfolding wrapped
  slot-wrapped_ne i ne nl =
      get_or-set_ne (stepped t r).mem (last_slot r) i _ _ nl ∙ slot-stepped_ne i ne

  stepped-IsRing : r.write_index + 1 < last_slot r → IsRing (stepped t r)
  unfolding stepped
  stepped-IsRing room = record {
    two_slots = v.two_slots;
    small = v.small;
    memory = length-set r.mem r.write_index (stamp r.cycle_bit t) ∙ v.memory;
    in_range = room;
    aligned = v.aligned;
    base = v.base;
    behind = λ i h. elim (ℕ_discrete r.write_index i) [
      | yes e ↦ rw (← e, slot-stepped_self) (stamp_fields r.cycle_bit t).1
      | no ne ↦ rw (slot-stepped_ne i ne) (v.behind i (omega arith))
    ];
    ahead = λ i h h'. rw (slot-stepped_ne i (omega arith)) (v.ahead i (omega arith) h');
  }

  wrapped-IsRing : r.write_index + 1 ≡ last_slot r → IsRing (wrapped t r)
  unfolding wrapped
  wrapped-IsRing full = record {
    two_slots = v.two_slots;
    small = v.small;
    memory =
        length-set (set r.mem r.write_index (stamp r.cycle_bit t)) (last_slot r) _
        ∙ length-set r.mem r.write_index (stamp r.cycle_bit t)
        ∙ v.memory;
    in_range = omega arith;
    aligned = v.aligned;
    base = v.base;
    behind = λ i h. absurd (omega arith);
    ahead = λ i h h'. rw (not-not r.cycle_bit) (elim (ℕ_discrete r.write_index i) [
      | yes e ↦ rw (← e, slot-wrapped_self) (stamp_fields r.cycle_bit t).1
      | no ne ↦ rw (slot-wrapped_ne i ne (omega arith)) (v.behind i (omega arith))
    ]);
  }

-- `Push` keeps the invariant, whether or not it wraps: the write position stays in front of the link
-- slot, and every slot shows by its cycle bit on which side of the write position it lies.
pub push-IsRing : (t : Trb) (r : Ring) → IsWords t → IsRing r → IsRing (push t r).1
push-IsRing t r w v = elim (dec_lt (r.write_index + 1) (last_slot r)) [
  | yes room ↦ rw (push-stepped t r w v room) (stepped-IsRing t r v room)
  | no full ↦
      let e : r.write_index + 1 ≡ last_slot r = omega (arith, v.in_range) in
      rw (push-wrapped t r w v e) (wrapped-IsRing t r v e)
]
