-- ===== src/Memory.antt =====
-- kernel/usb/memory.hpp and memory.cpp: the bump allocator of the USB driver. Addresses are
-- numbers below 2 ^ 64; `memory_pool`, the address that the linker gives the pool, is a parameter.
-- A null pointer is `none`. `alloc_ptr` goes in and comes out beside the result.
mod Round
pub mod Placement
pub mod Results
pub mod Sequence
mod Examples
use mikanos_m1mac.Base.{
  ℕ, ◌+◌, ◌-◌, ◌*◌, ◌^◌, bit_and, u32, u64, ltb, if◌then◌else◌, Option, none, some,
}

abbrev pub memory_pool_size : ℕ
memory_pool_size = 4096 * 32

-- `~x` in 64 bits.
abbrev pub not64 : ℕ → ℕ
not64 x = 2 ^ 64 - 1 - x

-- `alignment - 1` is taken in 32 bits before the cast.
unfoldable pub ceil : ℕ → ℕ → ℕ
ceil value alignment =
    bit_and (u64 (value + alignment + (2 ^ 64 - 1))) (not64 (u32 (alignment + (2 ^ 32 - 1))))

-- `MaskBits`, which nothing calls; its mask is taken at 32 bits.
pub mask_bits : ℕ → ℕ → ℕ
mask_bits value mask = bit_and value (not64 (u32 (mask + (2 ^ 32 - 1))))

-- The first `if` of `AllocMem`.
unfoldable pub align : ℕ → ℕ → ℕ
align alignment p = if ltb 0 alignment then ceil p alignment else p

-- The second: if the block would end behind the next boundary, it starts there.
unfoldable pub skip_boundary : ℕ → ℕ → ℕ → ℕ
skip_boundary size boundary p =
    if ltb 0 boundary
    then (let next_boundary = ceil p boundary in
        if ltb next_boundary (u64 (p + size)) then next_boundary else p)
    else p

-- Where the block is tried.
unfoldable pub place : ℕ → ℕ → ℕ → ℕ → ℕ
unfolding align skip_boundary
place size alignment boundary alloc_ptr = skip_boundary size boundary (align alignment alloc_ptr)

module _ (memory_pool : ℕ) where
  -- `alloc_ptr` keeps the place that was tried, also where the block does not fit.
  unfoldable pub alloc_mem : ℕ → ℕ → ℕ → ℕ → Option ℕ × ℕ
  unfolding place
  alloc_mem size alignment boundary alloc_ptr =
      let p = place size alignment boundary alloc_ptr in
      if ltb (u64 (memory_pool + memory_pool_size)) (u64 (p + size))
      then (none, p)
      else (some p, u64 (p + size))

  -- `AllocArray<T>`, with `sizeof(T)` as an argument.
  unfoldable pub alloc_array : ℕ → ℕ → ℕ → ℕ → ℕ → Option ℕ × ℕ
  alloc_array size_of num_obj alignment boundary =
      alloc_mem (u64 (size_of * num_obj)) alignment boundary

-- `FreeMem` has an empty body.
pub free_mem : Option ℕ → ℕ → ℕ
free_mem p alloc_ptr = alloc_ptr
