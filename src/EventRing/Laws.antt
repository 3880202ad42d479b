-- ===== src/EventRing/Laws.antt =====
-- The event ring as a queue: the controller writes events round by round, and the driver, with the
-- dequeue pointer and its cycle bit, reads them once each and in order.
use mikanos_m1mac.Base.{
  ℕ, zero, suc, ◌+◌, ◌*◌, ◌%◌, ◌^◌, ◌<◌, ◌≤◌, ◌≡◌, ◌≢◌, ◌⊎◌, refl, sym, ◌∙◌, ap, subst, u64, ◌==◌,
  ==_iff, ==_self, ltb, if◌then◌else◌, Bool, Bool-cases, true, false, false≢true, not, bool_bit,
  inl, inr, arith,
}
use mikanos_m1mac.Mmio.{Mmio}
use mikanos_m1mac.Registers.Interrupter.{erdp, dequeue_pointer, set_dequeue_pointer}
use mikanos_m1mac.Trb as TrbModule
use mikanos_m1mac.Trb.{Trb, zero_trb}
use mikanos_m1mac.Ring.Invariant.{not-not}
use mikanos_m1mac.Ring.Writes.{stamp, stamp_fields}
use mikanos_m1mac.EventRing.{
  Dma, EventRing, read_dequeue_pointer, write_dequeue_pointer, pop, front, has_front, segment_end,
}

-- The cycle bit of a round: 1 in the first, and flipped from round to round.
abbrev pub even : ℕ → Bool
even zero = true
even (suc q) = not (even q)

-- What a slot still holds of the round before.
abbrev pub previous : (ℕ → ℕ → Trb) → ℕ → ℕ → Trb
previous events zero i = zero_trb
previous events (suc q) i = stamp (even q) (events q i)

-- The slot `i`, when the controller has written all rounds before `q` and the first `j` events of it.
abbrev pub slot : (ℕ → ℕ → Trb) → ℕ → ℕ → ℕ → Trb
slot events q j i = if ltb i j then stamp (even q) (events q i) else previous events q i

-- The driver has read the rounds before `q` and `j` events of it, and the controller may be ahead by
-- up to a round.
abbrev pub IsBehind : ℕ → ℕ → ℕ → ℕ → Type 0
IsBehind q j q' j' = ((q ≡ q') × (j < j')) ⊎ ((suc q ≡ q') × (j' ≤ j))

slot_behind :
    (events : ℕ → ℕ → Trb) (q j q' j' : ℕ)
    → IsBehind q j q' j'
    → slot events q' j' j ≡ stamp (even q) (events q j)
slot_behind events q j q' j' (inl (e, lt)) =
    let t : ltb j j' ≡ true = ground arith in
    subst (λ x. slot events x j' j ≡ stamp (even q) (events q j)) e (rw t refl)
slot_behind events q j q' j' (inr (e, le)) =
    let f : ltb j j' ≡ false = ground arith in
    subst (λ x. slot events x j' j ≡ stamp (even q) (events q j)) e (rw f refl)

slot_unwritten : (events : ℕ → ℕ → Trb) (q j : ℕ) → slot events q j j ≡ previous events q j
slot_unwritten events q j = let f : ltb j j ≡ false = ground arith in rw f refl

previous_cycle :
    (events : ℕ → ℕ → Trb) (q j : ℕ)
    → TrbModule.cycle_bit (previous events q j) ≡ bool_bit (not (even q))
previous_cycle events zero j = refl
previous_cycle events (suc q) j =
    (stamp_fields (even q) (events q j)).1 ∙ ap bool_bit (sym (not-not (even q)))

other_bit : (b : Bool) → (bool_bit (not b) == bool_bit b) ≡ false
other_bit true = refl
other_bit false = refl

module _ {ℓ} {H : Type ℓ} (mmio : Mmio H) (dma : Dma H) where
  abbrev pub pointer : ℕ → H → ℕ
  pointer a h = dequeue_pointer (mmio.read a h).0

  -- The register ERDP at `a`: its pointer reads back as written, and a read changes neither it nor the
  -- memory; a write of it does not change the memory.
  pub record HasErdp (a : ℕ) : Type ℓ where
    pub kept : (h : H) → pointer a (mmio.read a h).1 ≡ pointer a h
    pub written : (w : ℕ) (h : H) → pointer a (mmio.write a w h) ≡ dequeue_pointer w
    pub read_keeps : (p : ℕ) (h : H) → dma.trb p (mmio.read a h).1 ≡ dma.trb p h
    pub write_keeps : (p w : ℕ) (h : H) → dma.trb p (mmio.write a w h) ≡ dma.trb p h

  -- A segment of at least one TRB, aligned, that ends below 2 ^ 64.
  pub record IsSegment (r : EventRing) : Type 0 where
    pub aligned : r.ring_segment_base_address % 16 ≡ 0
    pub non_empty : 0 < r.ring_segment_size
    pub fits : r.ring_segment_base_address + 16 * r.ring_segment_size < 2 ^ 64

  -- The driver is about to read the event `j` of the round `q`.
  pub record IsAt (q j : ℕ) (r : EventRing) (h : H) : Type 0 where
    pub index_in : j < r.ring_segment_size
    pub points : pointer (r.interrupter + erdp) h ≡ r.ring_segment_base_address + 16 * j
    pub cycle : r.cycle_bit ≡ even q

  -- The controller has written that far.
  abbrev pub IsWritten : (ℕ → ℕ → Trb) → ℕ → ℕ → EventRing → H → Type 0
  IsWritten events q j r h =
      (i : ℕ)
      → i < r.ring_segment_size
      → dma.trb (r.ring_segment_base_address + 16 * i) h ≡ slot events q j i

  pub dequeue_lem :
      (p b w : ℕ) → p ≡ b → b % 16 ≡ 0 → b < 2 ^ 64 → dequeue_pointer (set_dequeue_pointer p w) ≡ b
  dequeue_lem p b w e h lt = omega arith

  -- The next event of the round, or the first of the next.
  abbrev pub After : ℕ → ℕ → EventRing × H → Type 0
  After q j s =
      (IsAt q (suc j) s.0 s.1) ⊎ ((suc j ≡ s.0.ring_segment_size) × IsAt (suc q) 0 s.0 s.1)

  -- When the driver is at an event of a segment that is aligned and ends below 2 ^ 64, and ERDP reads
  -- back as written, `Pop` goes on to the next event of the round, or, at the last slot of the
  -- segment, to the first event of the next round with the cycle bit flipped.
  pub pop-After :
      (q j : ℕ) (r : EventRing) (h : H)
      → HasErdp (r.interrupter + erdp)
      → IsSegment r
      → IsAt q j r h
      → After q j (pop mmio r h)
  unfolding pop read_dequeue_pointer write_dequeue_pointer
  pop-After q j r h law segment at = elim (Bool-cases (last == segment_end r)) [
    | inl e ↦
        let ends : last ≡ segment_end r = (==_iff _ _).0 e in
        rw e (
          inr (
            omega (arith, last_eq, end_eq, ends),
            record {
              index_in = segment.non_empty;
              points =
                  law.written _ _
                  ∙ dequeue_lem r.ring_segment_base_address (r.ring_segment_base_address + 0) _
                      (omega arith) (omega (arith, segment.aligned)) (omega arith);
              cycle = ap not at.cycle;
            },
          ))
    | inr e ↦
        let goes_on : last ≢ segment_end r = λ z. false≢true (sym e ∙ (==_iff _ _).1 z) in
        rw e (
          inl (record {
            index_in = omega (arith, last_eq, end_eq, goes_on);
            points =
                law.written _ _
                ∙ dequeue_lem _ (r.ring_segment_base_address + 16 * suc j) _ last_eq (omega arith)
                    (omega arith);
            cycle = at.cycle;
          }))
  ]
    where
      last : ℕ
      last = u64 (pointer (r.interrupter + erdp) h + 16)

      last_eq : last ≡ r.ring_segment_base_address + 16 * suc j
      last_eq = omega (arith, at.points)

      end_eq : segment_end r ≡ r.ring_segment_base_address + 16 * r.ring_segment_size
      end_eq = omega arith

  front-slot :
      (events : ℕ → ℕ → Trb) (q j q' j' : ℕ) (r : EventRing) (h : H)
      → HasErdp (r.interrupter + erdp)
      → IsAt q j r h
      → IsWritten events q' j' r h
      → (front mmio dma r h).0 ≡ slot events q' j' j
  unfolding front read_dequeue_pointer
  front-slot events q j q' j' r h law at w =
      law.read_keeps _ h ∙ (ap (λ p. dma.trb p h) at.points ∙ w j at.index_in)

  -- As long as the driver is behind the controller, by a round at most, and ERDP reads back as written,
  -- `HasFront` holds, and `Front` is the next event that the driver has not read, whatever older events
  -- the other slots still hold.
  pub front_event :
      (events : ℕ → ℕ → Trb) (q j q' j' : ℕ) (r : EventRing) (h : H)
      → HasErdp (r.interrupter + erdp)
      → IsAt q j r h
      → IsWritten events q' j' r h
      → IsBehind q j q' j'
      → ((front mmio dma r h).0 ≡ stamp (even q) (events q j)) × ((has_front mmio dma r h).0 ≡ true)
  unfolding has_front
  front_event events q j q' j' r h law at w behind =
      let slot_eq =
        front-slot events q j q' j' r h law at w ∙ slot_behind events q j q' j' behind in
      (
        slot_eq,
        ap (λ t. TrbModule.cycle_bit t == bool_bit r.cycle_bit) slot_eq
            ∙ (ap (λ c. c == bool_bit r.cycle_bit) (stamp_fields (even q) (events q j)).1
                ∙ (ap (λ b. bool_bit (even q) == bool_bit b) at.cycle ∙ ==_self _)),
      )

  -- With nothing more written than was read, `HasFront` does not hold.
  pub front_empty :
      (events : ℕ → ℕ → Trb) (q j : ℕ) (r : EventRing) (h : H)
      → HasErdp (r.interrupter + erdp)
      → IsAt q j r h
      → IsWritten events q j r h
      → (has_front mmio dma r h).0 ≡ false
  unfolding has_front
  front_empty events q j r h law at w =
      ap (λ t. TrbModule.cycle_bit t == bool_bit r.cycle_bit)
        (front-slot events q j q j r h law at w ∙ slot_unwritten events q j)
      ∙ (ap (λ c. c == bool_bit r.cycle_bit) (previous_cycle events q j)
          ∙ (ap (λ b. bool_bit (not (even q)) == bool_bit b) at.cycle ∙ other_bit (even q)))
