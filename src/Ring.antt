-- ===== src/Ring.antt =====
-- `Ring` of kernel/usb/xhci/ring.hpp and ring.cpp: the command ring and the transfer rings, on
-- which the driver is the producer. The memory that `buf_` points to is the list `mem`.
pub mod Writes
pub mod Invariant
pub mod Window
pub mod Reader
pub mod Start
pub mod Lag
pub mod Pushes
pub mod Queue
mod Examples
use mikanos_m1mac.Base.{
  ℕ, zero, suc, ◌+◌, ◌*◌, ◌^◌, ◌-◌, u64, bit_and, bit_or, ◌==◌, if◌then◌else◌, Bool, true, false,
  not, bool_bit, List, [], ◌∷◌, Option, none, some, get_or, set, replicate,
}
use mikanos_m1mac.Errors.{Code, success, no_enough_memory}
use mikanos_m1mac.Memory.{alloc_array}
use mikanos_m1mac.Trb.{Trb, zero_trb}
use mikanos_m1mac.Trb.Link

pub record Ring : Type 0 where
  pub buf : Option ℕ
  pub mem : List Trb
  pub buf_size : ℕ
  pub cycle_bit : Bool
  pub write_index : ℕ

-- `sizeof(TRB)`
abbrev pub trb_size : ℕ
trb_size = 16

abbrev pub address : Option ℕ → ℕ
address none = 0
address (some p) = p

-- The writes of `CopyToLast` to the words of one TRB, in program order.
abbrev pub copy_writes : Bool → Trb → List (ℕ × ℕ)
copy_writes cycle t =
    (0, t.d0) ∷ (1, t.d1) ∷ (2, t.d2) ∷ (3, bit_or (bit_and t.d3 0xffff_fffe) (bool_bit cycle)) ∷ []

abbrev pub set_word : ℕ → ℕ → Trb → Trb
set_word zero v t = record t { d0 = v }
set_word (suc zero) v t = record t { d1 = v }
set_word (suc (suc zero)) v t = record t { d2 = v }
set_word (suc (suc (suc _))) v t = record t { d3 = v }

abbrev pub apply_writes : List (ℕ × ℕ) → Trb → Trb
apply_writes [] t = t
apply_writes ((i, v) ∷ ws) t = apply_writes ws (set_word i v t)

pub copy_to_last : Trb → Ring → Ring
copy_to_last t r = record r {
  mem = set mem write_index (apply_writes (copy_writes cycle_bit t) old);
}
  where
    open r use {mem, write_index, cycle_bit}

    old : Trb
    old = get_or mem write_index zero_trb

-- The link TRB that `Push` builds.
abbrev pub link : Ring → Trb
link r = Link.set_toggle_cycle true (Link.new (address r.buf))

wrap : Ring → Ring
unfolding copy_to_last
wrap r = record (copy_to_last (link r) r) { write_index = 0; cycle_bit = not r.cycle_bit }

-- The result is the address of the TRB on the ring.
pub push : Trb → Ring → ℕ × Ring
unfolding copy_to_last wrap
push t r =
    let trb_ptr = address r.buf + trb_size * r.write_index in
    let r' = record (copy_to_last t r) { write_index = u64 (r.write_index + 1) } in
    (trb_ptr, if r'.write_index == u64 (r.buf_size + (2 ^ 64 - 1)) then wrap r' else r')

-- `Initialize` after the allocation: a failure leaves the old memory behind a null pointer.
started : Option ℕ × ℕ → ℕ → Ring → Code × Ring × ℕ
started (buf, alloc_ptr) buf_size r =
    let r' : Ring = record {
      buf = buf;
      mem = r.mem;
      buf_size = buf_size;
      cycle_bit = true;
      write_index = 0;
    } in
    elim buf [
      | none ↦ (no_enough_memory, r', alloc_ptr)
      | some p ↦ (success, record r' { mem = replicate buf_size zero_trb }, alloc_ptr)
    ]

pub initialize : ℕ → ℕ → Ring → ℕ → Code × Ring × ℕ
unfolding started
initialize memory_pool buf_size r alloc_ptr =
    started (alloc_array memory_pool trb_size buf_size 64 (64 * 1024) alloc_ptr) buf_size r
