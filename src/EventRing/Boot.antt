-- ===== src/EventRing/Boot.antt =====
-- `Initialize` on hardware whose registers are a function of the address, and so is the memory.
use mikanos_m1mac.Base.{
  ℕ, ◌+◌, ◌*◌, ◌<◌, ◌≡◌, refl, ◌==◌, ◌&&◌, ltb, not, if◌then◌else◌, true, false, none, arith,
}
use mikanos_m1mac.Mmio.{Mmio}
use mikanos_m1mac.Trb.{Trb, zero_trb}
use mikanos_m1mac.Trb.TransferEvent as TransferEvent
use mikanos_m1mac.EventRing.{Dma, EventRing, initialize}
use mikanos_m1mac.EventRing.Start.{IsQuiet, Started, initialize-Started}

record Machine : Type 0 where
  registers : ℕ → ℕ
  memory : ℕ → Trb

abbrev mmio : Mmio Machine
mmio = record {
  read = λ a m. (m.registers a, m);
  write = λ a w m. record m { registers = λ b. if b == a then w else m.registers b };
}

abbrev dma : Dma Machine
dma = record {
  trb = λ p m. m.memory p;
  clear = λ b n m. record m {
    memory = λ p. if not (ltb p b) && ltb p (b + 16 * n) then zero_trb else m.memory p;
  };
}

cleared_lem : (b n i : ℕ) (m : Machine) → i < n → dma.trb (b + 16 * i) (dma.clear b n m) ≡ zero_trb
cleared_lem b n i m lt =
    let inside : (not (ltb (b + 16 * i) b) && ltb (b + 16 * i) (b + 16 * n)) ≡ true =
      ground arith in
    rw inside refl

machine-IsQuiet : (a : ℕ) → IsQuiet mmio dma a
machine-IsQuiet a = record {
  cleared = cleared_lem;
  read_keeps = λ p b m. refl;
  write_keeps = λ p b w m. refl;
  written = λ w m. let same : (a == a) ≡ true = ground arith in rw same refl;
  read_beside = λ b m. refl;
  write_beside = λ b w m apart. let other : (a == b) ≡ false = ground arith in rw other refl;
}

abbrev before : Machine
before = record { registers = λ _. 0; memory = λ _. TransferEvent.new }

abbrev unused : EventRing
unused = record {
  buf = none;
  buf_size = 0;
  cycle_bit = false;
  erst = none;
  ring_segment_base_address = 0;
  ring_segment_size = 0;
  interrupter = 0;
}

abbrev events : ℕ → ℕ → Trb
events _ _ = TransferEvent.new

initialize-Started_example :
    Started mmio dma events 32 0x3020
      (initialize mmio dma 0x100000 32 0x3020 unused 0x100000 before)
initialize-Started_example =
    initialize-Started mmio dma events 0x100000 32 (omega arith) (omega arith) 0x3020 0x100000
      unused before (machine-IsQuiet _) (omega arith)
