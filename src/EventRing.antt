-- ===== src/EventRing.antt =====
-- `EventRing` of kernel/usb/xhci/ring.hpp and ring.cpp: the driver is the consumer, and the controller
-- writes the TRBs. `erst_[0]`, the one entry of the segment table, is two fields here.
pub mod Laws
pub mod Start
mod Examples
mod Boot
use mikanos_m1mac.Base.{
  ℕ, ◌+◌, ◌*◌, ◌^◌, u16, u64, ◌==◌, if◌then◌else◌, Bool, true, not, bool_bit, Option, none, some,
}
use mikanos_m1mac.Errors.{Code, success, no_enough_memory}
use mikanos_m1mac.Memory.{alloc_array, free_mem}
use mikanos_m1mac.Mmio.{Mmio, read_field, modify}
use mikanos_m1mac.Registers.Interrupter.{
  erstsz, erstba, erdp, set_table_size, set_table_pointer, dequeue_pointer, set_dequeue_pointer,
}
use mikanos_m1mac.Ring.{trb_size}
use mikanos_m1mac.Trb.{Trb, cycle_bit}

-- The memory that the controller writes: the TRB at an address, and `memset` to 0 of so many TRBs.
pub record Dma {ℓ} (H : Type ℓ) : Type ℓ where
  pub trb : ℕ → H → Trb
  pub clear : ℕ → ℕ → H → H

pub record EventRing : Type 0 where
  pub buf : Option ℕ
  pub buf_size : ℕ
  pub cycle_bit : Bool
  pub erst : Option ℕ
  pub ring_segment_base_address : ℕ
  pub ring_segment_size : ℕ
  pub interrupter : ℕ

-- `sizeof(EventRingSegmentTableEntry)`
abbrev pub entry_size : ℕ
entry_size = 16

-- The end of the segment, as an address.
abbrev pub segment_end : EventRing → ℕ
segment_end r = u64 (r.ring_segment_base_address + trb_size * r.ring_segment_size)

module _ {ℓ} {H : Type ℓ} (mmio : Mmio H) where
  unfoldable pub read_dequeue_pointer : EventRing → H → ℕ × H
  read_dequeue_pointer r = read_field mmio dequeue_pointer (r.interrupter + erdp)

  unfoldable pub write_dequeue_pointer : ℕ → EventRing → H → H
  write_dequeue_pointer p r = modify mmio (set_dequeue_pointer p) (r.interrupter + erdp)

  unfoldable pub pop : EventRing → H → EventRing × H
  pop r h =
      let front = read_dequeue_pointer r h in
      let p = u64 (front.0 + trb_size) in
      if p == segment_end r
      then (
        record r { cycle_bit = not r.cycle_bit },
        write_dequeue_pointer r.ring_segment_base_address r front.1,
      )
      else (r, write_dequeue_pointer p r front.1)

  module _ (dma : Dma H) where
    unfoldable pub front : EventRing → H → Trb × H
    front r h = let p = read_dequeue_pointer r h in (dma.trb p.0 p.1, p.1)

    unfoldable pub has_front : EventRing → H → Bool × H
    has_front r h = let t = front r h in (cycle_bit t.0 == bool_bit r.cycle_bit, t.1)

    -- The registers of the interrupter, in program order.
    unfoldable pub tell_controller : ℕ → ℕ → EventRing → H → H
    tell_controller buf erst r h =
        modify mmio (set_table_pointer erst) (r.interrupter + erstba)
          (write_dequeue_pointer buf r (modify mmio (set_table_size 1) (r.interrupter + erstsz) h))

    -- After the allocation of the segment table, for a buffer at `buf`.
    unfoldable pub with_table : Option ℕ × ℕ → ℕ → EventRing → H → Code × EventRing × ℕ × H
    with_table (none, alloc_ptr) buf r h =
        (no_enough_memory, record r { erst = none }, free_mem (some buf) alloc_ptr, h)
    with_table (some erst, alloc_ptr) buf r h =
        let r' : EventRing = record r {
          erst = some erst;
          ring_segment_base_address = buf;
          ring_segment_size = u16 r.buf_size;
        } in
        (success, r', alloc_ptr, tell_controller buf erst r' h)

    -- After the allocation of the buffer.
    unfoldable pub with_buffer : ℕ → Option ℕ × ℕ → EventRing → H → Code × EventRing × ℕ × H
    with_buffer memory_pool (none, alloc_ptr) r h =
        (no_enough_memory, record r { buf = none }, alloc_ptr, h)
    with_buffer memory_pool (some buf, alloc_ptr) r h =
        with_table (alloc_array memory_pool entry_size 1 64 (64 * 1024) alloc_ptr) buf
          (record r { buf = some buf }) (dma.clear buf r.buf_size h)

    -- `FreeMem` of the old memory does nothing.
    unfoldable pub initialize : ℕ → ℕ → ℕ → EventRing → ℕ → H → Code × EventRing × ℕ × H
    initialize memory_pool buf_size interrupter r alloc_ptr h =
        with_buffer memory_pool (alloc_array memory_pool trb_size buf_size 64 (64 * 1024) alloc_ptr)
          (record r { cycle_bit = true; buf_size = buf_size; interrupter = interrupter }) h
