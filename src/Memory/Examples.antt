-- ===== src/Memory/Examples.antt =====
-- The allocator on a pool at 1 MiB.
use mikanos_m1mac.Base.{ℕ, ◌+◌, ◌≤◌, ◌<◌, ◌≡◌, refl, ◌⊎◌, inl, inr, List, [], ◌∷◌, All, arith}
use mikanos_m1mac.Memory.{memory_pool_size, alloc_mem, ceil, mask_bits}
use mikanos_m1mac.Memory.Placement.{IsAligned, IsUnbroken, IsValid}
use mikanos_m1mac.Memory.Results.{alloc_mem-some, alloc_mem-none}
use mikanos_m1mac.Memory.Sequence.{Request, alloc_all, AllDisjoint, Within, alloc_all-AllDisjoint}

abbrev pool : ℕ
pool = 0x10_0000

start : IsValid pool (pool + 10)
start = omega arith

ceil_rounds : ceil 1000 64 ≡ 1024
unfolding ceil
ceil_rounds = refl

mask_bits_rounds_down : mask_bits 1000 64 ≡ 960
unfolding mask_bits
mask_bits_rounds_down = refl

-- 5000 bytes at a multiple of 64 that do not straddle a boundary of 8192.
alloc_mem-some_example :
    (pool + 10 ≤ pool + 64)
    × IsAligned 64 (pool + 64)
    × ((8192 < 5000) ⊎ IsUnbroken 8192 5000 (pool + 64))
    × (pool + 64 + 5000 ≤ pool + memory_pool_size)
    × (pool + 5064 ≡ pool + 64 + 5000)
    × IsValid pool (pool + 5064)
unfolding alloc_mem ceil
alloc_mem-some_example =
    alloc_mem-some pool 5000 64 8192 (pool + 10) (pool + 64) (pool + 5064)
      (inr (6, omega arith, refl)) (inr (13, omega arith, refl)) (omega arith) start refl

-- The whole pool is too much once ten bytes are gone.
alloc_mem-none_example :
    (pool + memory_pool_size < pool + 64 + memory_pool_size)
    × (pool + 10 ≤ pool + 64)
    × IsValid pool (pool + 64)
unfolding alloc_mem ceil
alloc_mem-none_example =
    alloc_mem-none pool memory_pool_size 64 0 (pool + 10) (pool + 64) (pool + 64)
      (inr (6, omega arith, refl)) (inl refl) (omega arith) start refl (omega arith) (inr refl)
      (inl refl)

abbrev requests : List Request
requests =
    record { size = 72; alignment = 0; boundary = 0 }
    ∷ record { size = 512; alignment = 64; boundary = 65536 }
    ∷ record { size = 4096; alignment = 4096; boundary = 4096 }
    ∷ []

alloc_all-AllDisjoint_example :
    AllDisjoint (alloc_all pool requests (pool + 10))
    × All (Within pool (pool + 10)) (alloc_all pool requests (pool + 10))
alloc_all-AllDisjoint_example =
    alloc_all-AllDisjoint pool requests (pool + 10)
      (
        (inl refl, inl refl, omega arith),
        (
          (inr (6, omega arith, refl), inr (16, omega arith, refl), omega arith),
          ((inr (12, omega arith, refl), inr (12, omega arith, refl), omega arith), tt),
        ),
      )
      start
