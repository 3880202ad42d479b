-- ===== src/EventRing/Examples.antt =====
-- A segment of two TRBs with one event, hardware that is the register ERDP alone, and the theorems.
use mikanos_m1mac.Base.{ℕ, zero, suc, ◌≡◌, refl, ◌==◌, if◌then◌else◌, true, false, some, inl, arith}
use mikanos_m1mac.Mmio.{Mmio}
use mikanos_m1mac.Trb.{Trb, zero_trb}
use mikanos_m1mac.Trb.TransferEvent as TransferEvent
use mikanos_m1mac.Ring.Writes.{stamp}
use mikanos_m1mac.EventRing.{Dma, EventRing, front, has_front, pop}
use mikanos_m1mac.EventRing.Laws.{
  HasErdp, IsSegment, IsAt, IsWritten, After, pop-After, front_event, front_empty,
}

abbrev mmio : Mmio ℕ
mmio = record { read = λ _ h. (h, h); write = λ _ w _. w }

abbrev events : ℕ → ℕ → Trb
events _ _ = TransferEvent.new

abbrev dma : Dma ℕ
dma = record {
  trb = λ p _. if p == 0x1000 then stamp true TransferEvent.new else zero_trb;
  clear = λ _ _ h. h;
}

abbrev ring : EventRing
ring = record {
  buf = some 0x1000;
  buf_size = 2;
  cycle_bit = true;
  erst = some 0x2000;
  ring_segment_base_address = 0x1000;
  ring_segment_size = 2;
  interrupter = 0x20;
}

ring-HasErdp : HasErdp mmio dma 0x38
ring-HasErdp = record {
  kept = λ h. refl;
  written = λ w h. refl;
  read_keeps = λ p h. refl;
  write_keeps = λ p w h. refl;
}

ring-IsSegment : IsSegment mmio dma ring
ring-IsSegment = omega arith

ring-IsWritten : IsWritten mmio dma events 0 1 ring 0x1000
ring-IsWritten zero lt = refl
ring-IsWritten (suc zero) lt = refl
ring-IsWritten (suc (suc i)) lt = absurd (omega arith)

first-IsAt : IsAt mmio dma 0 0 ring 0x1000
first-IsAt = record { index_in = omega arith; points = refl; cycle = refl }

second-IsAt : IsAt mmio dma 0 1 ring 0x1010
second-IsAt = record { index_in = omega arith; points = refl; cycle = refl }

front_event_example :
    ((front mmio dma ring 0x1000).0 ≡ stamp true TransferEvent.new)
    × ((has_front mmio dma ring 0x1000).0 ≡ true)
front_event_example =
    front_event mmio dma events 0 0 0 1 ring 0x1000 ring-HasErdp first-IsAt ring-IsWritten
      (inl (refl, omega arith))

second-IsWritten : IsWritten mmio dma events 0 1 ring 0x1010
second-IsWritten zero lt = refl
second-IsWritten (suc zero) lt = refl
second-IsWritten (suc (suc i)) lt = absurd (omega arith)

front_empty_example : (has_front mmio dma ring 0x1010).0 ≡ false
front_empty_example =
    front_empty mmio dma events 0 1 ring 0x1010 ring-HasErdp second-IsAt second-IsWritten

-- The segment ends, and the next round starts.
pop-After_example : After mmio dma 0 1 (pop mmio ring 0x1010)
pop-After_example = pop-After mmio dma 0 1 ring 0x1010 ring-HasErdp ring-IsSegment second-IsAt
