-- ===== src/EventRing/Start.antt =====
-- `EventRing::Initialize`: the driver and the controller start at the first event of the first round.
use mikanos_m1mac.Base.{
  ℕ, ◌+◌, ◌*◌, ◌%◌, ◌^◌, ◌<◌, ◌≡◌, ◌≢◌, ◌⊎◌, refl, sym, ◌∙◌, ltb, false, inl, inr, arith, Option,
  none, some, true,
}
use mikanos_m1mac.Errors.{Code, success, no_enough_memory}
use mikanos_m1mac.Memory.{alloc_array}
use mikanos_m1mac.Memory.Placement.{IsValid}
use mikanos_m1mac.Memory.Results.{Outcome, alloc_array-Outcome}
use mikanos_m1mac.Mmio.{Mmio}
use mikanos_m1mac.Registers.Interrupter.{erstba, erdp, dequeue_pointer}
use mikanos_m1mac.Ring.{trb_size}
use mikanos_m1mac.Trb.{Trb, zero_trb}
use mikanos_m1mac.EventRing.{
  Dma, EventRing, initialize, with_buffer, with_table, tell_controller, write_dequeue_pointer,
}
use mikanos_m1mac.EventRing.Laws.{pointer, IsSegment, IsAt, IsWritten, slot, dequeue_lem}

nothing_written : (events : ℕ → ℕ → Trb) (i : ℕ) → slot events 0 0 i ≡ zero_trb
nothing_written events i = let f : ltb i 0 ≡ false = ground arith in rw f refl

module _ {ℓ} {H : Type ℓ} (mmio : Mmio H) (dma : Dma H) where
  -- The register ERDP at `a` is a register of its own, `memset` clears what it is asked to, and the
  -- driver's reads and writes of registers change no memory.
  pub record IsQuiet (a : ℕ) : Type ℓ where
    pub cleared : (b n i : ℕ) (h : H) → i < n → dma.trb (b + 16 * i) (dma.clear b n h) ≡ zero_trb
    pub read_keeps : (p b : ℕ) (h : H) → dma.trb p (mmio.read b h).1 ≡ dma.trb p h
    pub write_keeps : (p b w : ℕ) (h : H) → dma.trb p (mmio.write b w h) ≡ dma.trb p h
    pub written : (w : ℕ) (h : H) → pointer mmio dma a (mmio.write a w h) ≡ dequeue_pointer w
    pub read_beside : (b : ℕ) (h : H) → pointer mmio dma a (mmio.read b h).1 ≡ pointer mmio dma a h
    pub write_beside :
        (b w : ℕ) (h : H) → a ≢ b → pointer mmio dma a (mmio.write b w h) ≡ pointer mmio dma a h

  -- What `Initialize` may return.
  abbrev pub Started : (ℕ → ℕ → Trb) → ℕ → ℕ → Code × EventRing × ℕ × H → Type 0
  Started events n interrupter (code, r, next, h) =
      (code ≡ no_enough_memory)
      ⊎ ((code ≡ success)
          × (r.interrupter ≡ interrupter)
          × (r.ring_segment_size ≡ n)
          × IsSegment mmio dma r
          × IsAt mmio dma 0 0 r h
          × IsWritten mmio dma events 0 0 r h)

  module _ (events : ℕ → ℕ → Trb) (pool n : ℕ) (some_slot : 0 < n) (small : n < 2 ^ 16) where
    told_keeps :
        (p buf erst : ℕ) (r : EventRing) (h : H)
        → IsQuiet (r.interrupter + erdp)
        → dma.trb p (tell_controller mmio dma buf erst r h) ≡ dma.trb p h
    unfolding tell_controller write_dequeue_pointer
    told_keeps p buf erst r h quiet =
        quiet.write_keeps p _ _ _
        ∙ (quiet.read_keeps p _ _
            ∙ (quiet.write_keeps p _ _ _
                ∙ (quiet.read_keeps p _ _ ∙ (quiet.write_keeps p _ _ _ ∙ quiet.read_keeps p _ _))))

    told_pointer :
        (buf erst : ℕ) (r : EventRing) (h : H)
        → IsQuiet (r.interrupter + erdp)
        → buf % 16 ≡ 0
        → buf < 2 ^ 64
        → pointer mmio dma (r.interrupter + erdp) (tell_controller mmio dma buf erst r h) ≡ buf
    unfolding tell_controller write_dequeue_pointer
    told_pointer buf erst r h quiet aligned lt =
        quiet.write_beside (r.interrupter + erstba) _ _ (λ e. omega (arith, e))
        ∙ (quiet.read_beside _ _
            ∙ (quiet.written _ _ ∙ dequeue_lem mmio dma buf buf _ refl aligned lt))

    table-Started :
        (out : Option ℕ × ℕ) (buf : ℕ) (r : EventRing) (h : H)
        → IsQuiet (r.interrupter + erdp)
        → r.cycle_bit ≡ true
        → r.buf_size ≡ n
        → buf % 16 ≡ 0
        → buf + 16 * n < 2 ^ 64
        → Started events n r.interrupter
            (with_table mmio dma out buf r (dma.clear buf r.buf_size h))
    unfolding with_table
    table-Started (none, next) buf r h quiet c e aligned fits = inl refl
    table-Started (some erst, next) buf r h quiet c e aligned fits = inr (
      refl,
      refl,
      omega (arith, e),
      omega (arith, e),
      record {
        index_in = omega (arith, e);
        points = told_pointer buf erst _ _ quiet aligned (omega arith) ∙ omega arith;
        cycle = c;
      },
      λ i lt.
          told_keeps _ buf erst _ _ quiet
          ∙ (quiet.cleared buf r.buf_size i h (omega (arith, e, lt))
              ∙ sym (nothing_written events i)),
    )

    buffer-Started :
        (out : Option ℕ × ℕ) (v : ℕ) (r : EventRing) (h : H)
        → IsQuiet (r.interrupter + erdp)
        → r.cycle_bit ≡ true
        → r.buf_size ≡ n
        → Outcome pool (trb_size * n) 64 (64 * 1024) v out
        → Started events n r.interrupter (with_buffer mmio dma pool out r h)
    unfolding with_buffer
    buffer-Started (none, next) v r h quiet c e o = inl refl
    buffer-Started (some buf, next) v r h quiet c e o =
        table-Started _ buf (record r { buf = some buf }) h quiet c e
          (elim o.1 [ inl z ↦ absurd (omega arith) | inr z ↦ omega (arith, z) ]) (omega arith)

    -- Where ERDP is a register of its own, `memset` clears, and accesses of registers change no memory,
    -- `Initialize` with a valid allocator and 1 to 65535 slots either reports that memory has run out,
    -- or leaves a segment of that size in which nothing is written, and the driver at the first event
    -- of the first round.
    pub initialize-Started :
        (interrupter v : ℕ) (r : EventRing) (h : H)
        → IsQuiet (interrupter + erdp)
        → IsValid pool v
        → Started events n interrupter (initialize mmio dma pool n interrupter r v h)
    unfolding initialize
    initialize-Started interrupter v r h quiet valid =
        buffer-Started (alloc_array pool trb_size n 64 (64 * 1024) v) v
          (record r { cycle_bit = true; buf_size = n; interrupter = interrupter }) h quiet refl refl
          (alloc_array-Outcome pool trb_size n 64 (64 * 1024) v (inr (6, omega arith, refl))
            (inr (16, omega arith, refl)) (omega arith) valid)
