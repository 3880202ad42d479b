-- ===== src/Transfer/Rings.antt =====
-- `AllocTransferRing` of kernel/usb/xhci/device.cpp.
use mikanos_m1mac.Base.{
  ℕ, ◌-◌, ◌<◌, ◌≤◌, ◌≡◌, refl, ltb, ◌==◌, ◌||◌, if◌then◌else◌, false, Option, none, some, set,
  length, get_or-set_self, arith,
}
use mikanos_m1mac.Outcome.{Outcome, returned, undefined}
use mikanos_m1mac.Memory.{alloc_array}
use mikanos_m1mac.Ring.{Ring, initialize}
use mikanos_m1mac.Transfer.{Device, ring_at}

module _ (memory_pool sizeof_ring : ℕ) where
  -- After the allocation of the `Ring` itself: its memory, `old`, is not constructed. The error of its
  -- `Initialize` is not looked at.
  unfoldable pub with_memory : Option ℕ × ℕ → ℕ → ℕ → Ring → Device → Option ℕ × Device × ℕ
  with_memory (none, alloc_ptr) i buf_size old dev =
      (none, record dev { transfer_rings = set dev.transfer_rings i none }, alloc_ptr)
  with_memory (some p, alloc_ptr) i buf_size old dev =
      let made = initialize memory_pool buf_size old alloc_ptr in
      (some p, record dev { transfer_rings = set dev.transfer_rings i (some made.1) }, made.2)

  -- There are 31 rings, from index 1 on; any other is written beside the array.
  unfoldable pub alloc_transfer_ring : ℕ → ℕ → Ring → Device → ℕ → Outcome (Option ℕ × Device × ℕ)
  alloc_transfer_ring index buf_size old dev alloc_ptr =
      let made =
        with_memory (alloc_array memory_pool sizeof_ring 1 64 4096 alloc_ptr) (index - 1) buf_size
          old dev in
      if (index == 0) || ltb 31 index then undefined else returned made

  -- A ring that was made is the one that the transfers of its endpoint use.
  ring_at-alloc_transfer_ring :
      (index buf_size p v : ℕ) (old : Ring) (dev : Device) (alloc_ptr : ℕ)
      → 0 < index
      → index ≤ 31
      → length dev.transfer_rings ≡ 31
      → alloc_array memory_pool sizeof_ring 1 64 4096 alloc_ptr ≡ (some p, v)
      → let made = initialize memory_pool buf_size old v in
        let dev' : Device = record dev {
          transfer_rings = set dev.transfer_rings (index - 1) (some made.1);
        } in
        (alloc_transfer_ring index buf_size old dev alloc_ptr ≡ returned (some p, dev', made.2))
        × (ring_at index dev' ≡ some made.1)
  unfolding alloc_transfer_ring with_memory
  ring_at-alloc_transfer_ring index buf_size p v old dev alloc_ptr pos le sized memory =
      let inside : ((index == 0) || ltb 31 index) ≡ false = ground arith in
      let not_zero : (index == 0) ≡ false = ground arith in
      (
        rw (inside, memory) refl,
        rw not_zero (get_or-set_self dev.transfer_rings (index - 1) _ none (omega (arith, sized))),
      )
