-- ===== src/Ring/Reader.antt =====
-- The other side of a ring: a consumer that knows where the ring begins and keeps a position and a
-- cycle state, as the xHCI protocol has it. It takes a TRB whose cycle bit equals its state, and at
-- a link TRB goes where it points, and flips its state if the TRB says so.
use mikanos_m1mac.Base.{
  ℕ, zero, suc, ◌+◌, ◌-◌, ◌/◌, ◌≤◌, ◌≡◌, ◌≢◌, ap, subst, ◌∙◌, Bool, true, false, not, bool_bit,
  List, ◌⊎◌, inl, inr, arith, leb, ◌==◌, ◌&&◌, if◌then◌else◌, dec_lt, Option, none, some, get_or,
  Bool-cases, ℕ_discrete, All,
}
use mikanos_m1mac.Trb.{Trb, zero_trb, cycle_bit, trb_type}
use mikanos_m1mac.Trb.Link
use mikanos_m1mac.Ring.{Ring, trb_size, address, link}
use mikanos_m1mac.Ring.Writes.{stamp}
use mikanos_m1mac.Ring.Invariant.{IsRing, last_slot, slot}
use mikanos_m1mac.Ring.Window.{slot_back, pending}

-- A slot and the cycle state.
abbrev pub Position : Type 0
Position = ℕ × Bool

abbrev is_owned : List Trb → Position → Bool
is_owned mem (i, cycle) = cycle_bit (get_or mem i zero_trb) == bool_bit cycle

abbrev jump : ℕ → Trb → Bool → Position
jump base t cycle =
    ((Link.pointer t - base) / trb_size, if Link.toggle_cycle t == 1 then not cycle else cycle)

pub follow : ℕ → List Trb → Position → Position
follow base mem (i, cycle) =
    if is_owned mem (i, cycle) && (trb_type (get_or mem i zero_trb) == Link.type)
    then jump base (get_or mem i zero_trb) cycle
    else (i, cycle)

pub fetch : ℕ → List Trb → Position → Option (Trb × Position)
fetch base mem (i, cycle) =
    if is_owned mem (i, cycle)
    then some (get_or mem i zero_trb, follow base mem (i + 1, cycle))
    else none

-- The position that is `n` TRBs behind the producer.
unfoldable pub back : Ring → ℕ → Position
back r n = (
  slot_back (last_slot r) r.write_index n,
  if leb n r.write_index then r.cycle_bit else not r.cycle_bit,
)

-- The link slot holds the link TRB of the lap before.
abbrev pub HasLink : Ring → Type 0
HasLink r = slot r (last_slot r) ≡ stamp (not r.cycle_bit) (link r)

abbrev pub IsPayload : Trb → Type 0
IsPayload t = trb_type t ≢ Link.type

-- What `n` unread TRBs on a ring require.
pub record IsLag (r : Ring) (n : ℕ) : Type 0 where
  pub ring : IsRing r
  pub fits : n ≤ last_slot r
  pub linked : (n ≤ r.write_index) ⊎ HasLink r
  pub payload : All IsPayload (pending r n)

-- Every unread slot shows the cycle bit that the reader expects there.
owned : (r : Ring) (n : ℕ) → IsRing r → suc n ≤ last_slot r → is_owned r.mem (back r (suc n)) ≡ true
unfolding back slot_back
owned r n v h = elim (dec_lt r.write_index (suc n)) [
  | yes below ↦ ground (arith, v.ahead (r.write_index + last_slot r - suc n))
  | no above ↦ ground (arith, v.behind (r.write_index - suc n))
]

-- The slot at the write position does not.
not_owned : (r : Ring) → IsRing r → is_owned r.mem (back r 0) ≡ false
unfolding back slot_back
not_owned r v = ground (arith, v.ahead r.write_index)

-- With nothing unread the reader finds nothing.
pub fetch-none : (r : Ring) → IsRing r → fetch (address r.buf) r.mem (back r 0) ≡ none
unfolding fetch
fetch-none r v = rw (not_owned r v)

-- Where the reader goes from the slot behind position `n + 1`.
advance : Ring → ℕ → Position
advance r n = ((back r (suc n)).0 + 1, (back r (suc n)).1)

advance_inner :
    (r : Ring) (n : ℕ) → IsRing r → suc n ≤ last_slot r → n ≢ r.write_index → advance r n ≡ back r n
unfolding advance back slot_back
advance_inner r n v h ne = ground (arith, v.in_range)

advance_last : (r : Ring) → IsRing r → advance r r.write_index ≡ (last_slot r, not r.cycle_bit)
unfolding advance back slot_back
advance_last r v = ground (arith, v.in_range)

back_last : (r : Ring) → back r r.write_index ≡ (0, r.cycle_bit)
unfolding back slot_back
back_last r = ground arith

-- The link TRB points at the first slot.
link-pointer : (r : Ring) → IsRing r → Link.pointer (link r) ≡ address r.buf
link-pointer r v = omega arith

module _ (r : Ring) (v : IsRing r) where
  follow_unowned : follow (address r.buf) r.mem (back r 0) ≡ back r 0
  unfolding follow
  follow_unowned = rw (not_owned r v)

  follow_payload :
      (i : ℕ) (c : Bool) → IsPayload (slot r i) → follow (address r.buf) r.mem (i, c) ≡ (i, c)
  unfolding follow
  follow_payload i c p = ground (arith, v.in_range)

  -- At a valid link TRB the reader goes to the first slot and flips its state.
  follow_link :
      HasLink r → follow (address r.buf) r.mem (last_slot r, not r.cycle_bit) ≡ (0, r.cycle_bit)
  unfolding follow
  follow_link linked = rw linked (elim (Bool-cases r.cycle_bit) [
    | inl on ↦
        rw on (ap (λ p. ((p - address r.buf) / trb_size, true)) (link-pointer r v) ∙ home true)
    | inr off ↦
        rw off (ap (λ p. ((p - address r.buf) / trb_size, false)) (link-pointer r v) ∙ home false)
  ])
    where
      home : (c : Bool) → ◌≡◌ {A = Position} ((address r.buf - address r.buf) / trb_size, c) (0, c)
      home c = ap (λ n. (n, c)) {y = 0} (omega arith)

moves_last : (r : Ring) → IsLag r (suc r.write_index) → HasLink r
moves_last r lag = elim lag.linked [ inl le ↦ absurd (omega arith) | inr linked ↦ linked ]

unread-IsPayload :
    (r : Ring) (n : ℕ)
    → All IsPayload (pending r (suc (suc n)))
    → IsPayload (slot r (back r (suc n)).0)
unfolding pending back
unread-IsPayload r n p = p.1.0

moves_inner :
    (r : Ring) (n : ℕ)
    → IsLag r (suc n)
    → n ≢ r.write_index
    → follow (address r.buf) r.mem (back r n) ≡ back r n
moves_inner r zero lag ne = follow_unowned r lag.ring
moves_inner r (suc n) lag ne = follow_payload r lag.ring _ _ (unread-IsPayload r n lag.payload)

moves : (r : Ring) (n : ℕ) → IsLag r (suc n) → follow (address r.buf) r.mem (advance r n) ≡ back r n
moves r n lag = elim (ℕ_discrete n r.write_index) [
  | yes e ↦
      let lag' = subst (λ k. IsLag r (suc k)) e lag in
      rw (e, advance_last r lag.ring, back_last r) (follow_link r lag.ring (moves_last r lag'))
  | no ne ↦ rw (advance_inner r n lag.ring lag.fits ne) (moves_inner r n lag ne)
]

-- With `n + 1` unread TRBs the reader takes the oldest, and is then `n` behind.
pub fetch-some :
    (r : Ring) (n : ℕ)
    → IsLag r (suc n)
    → fetch (address r.buf) r.mem (back r (suc n)) ≡ some (slot r (back r (suc n)).0, back r n)
unfolding fetch advance
fetch-some r n lag =
    rw (owned r n lag.ring lag.fits) (ap (λ p. some (slot r (back r (suc n)).0, p)) (moves r n lag))
