-- ===== src/Memory/Sequence.antt =====
-- A sequence of calls of `AllocMem`: the blocks that they return.
use mikanos_m1mac.Base.{ℕ, ◌+◌, ◌^◌, ◌≤◌, ◌⊎◌, inl, Option, none, some, List, [], ◌∷◌, All, arith}
use mikanos_m1mac.Memory.{memory_pool_size, alloc_mem}
use mikanos_m1mac.Memory.Placement.{IsConstraint, IsValid}
use mikanos_m1mac.Memory.Results.{Outcome, alloc_mem-Outcome}

pub record Request : Type 0 where
  pub size : ℕ
  pub alignment : ℕ
  pub boundary : ℕ

abbrev pub IsRequest : Request → Type 0
IsRequest r = IsConstraint r.alignment × IsConstraint r.boundary × (r.size ≤ 2 ^ 62)

-- A start and a size.
abbrev pub Block : Type 0
Block = ℕ × ℕ

abbrev keep : Option ℕ → ℕ → List Block → List Block
keep none size blocks = blocks
keep (some p) size blocks = (p, size) ∷ blocks

-- The blocks that the calls return, in order.
pub alloc_all : ℕ → List Request → ℕ → List Block
alloc_all memory_pool [] alloc_ptr = []
alloc_all memory_pool (r ∷ rs) alloc_ptr =
    let (block, next) = alloc_mem memory_pool r.size r.alignment r.boundary alloc_ptr in
    keep block r.size (alloc_all memory_pool rs next)

-- Each block lies in the pool, from `lo` on.
abbrev pub Within : ℕ → ℕ → Block → Type 0
Within memory_pool lo (p, size) = (lo ≤ p) × (p + size ≤ memory_pool + memory_pool_size)

abbrev pub Disjoint : Block → Block → Type 0
Disjoint (p, size) (q, size') = (p + size ≤ q) ⊎ (q + size' ≤ p)

abbrev pub AllDisjoint : List Block → Type 0
AllDisjoint [] = Unit {0}
AllDisjoint (b ∷ bs) = All (Disjoint b) bs × AllDisjoint bs

Within-mono :
    (pool lo hi : ℕ) (bs : List Block) → lo ≤ hi → All (Within pool hi) bs → All (Within pool lo) bs
Within-mono pool lo hi [] h w = tt
Within-mono pool lo hi ((p, size) ∷ bs) h w =
    ((omega (arith, w.0), w.0.1), Within-mono pool lo hi bs h w.1)

Within-Disjoint :
    (pool p size : ℕ) (bs : List Block)
    → All (Within pool (p + size)) bs
    → All (Disjoint (p, size)) bs
Within-Disjoint pool p size [] w = tt
Within-Disjoint pool p size ((q, size') ∷ bs) w = (inl w.0.0, Within-Disjoint pool p size bs w.1)

-- The blocks that any sequence of calls returns, each for at most 2 ^ 62 bytes and with constraints
-- that are powers of two, from a valid `alloc_ptr` on, lie in the pool at or behind `alloc_ptr`, and no two of them share a byte.
pub alloc_all-AllDisjoint :
    (memory_pool : ℕ) (rs : List Request) (alloc_ptr : ℕ)
    → All IsRequest rs
    → IsValid memory_pool alloc_ptr
    → AllDisjoint (alloc_all memory_pool rs alloc_ptr)
      × All (Within memory_pool alloc_ptr) (alloc_all memory_pool rs alloc_ptr)
unfolding alloc_all
alloc_all-AllDisjoint pool [] v ok valid = (tt, tt)
alloc_all-AllDisjoint pool (r ∷ rs) v ok valid =
    go (alloc_mem pool r.size r.alignment r.boundary v)
      (alloc_mem-Outcome pool r.size r.alignment r.boundary v ok.0.0 ok.0.1 ok.0.2 valid)
      (λ next. alloc_all-AllDisjoint pool rs next ok.1)
  where
    go :
        (out : Option ℕ × ℕ)
        → Outcome pool r.size r.alignment r.boundary v out
        → ((next : ℕ)
            → IsValid pool next
            → AllDisjoint (alloc_all pool rs next)
              × All (Within pool next) (alloc_all pool rs next))
        → AllDisjoint (keep out.0 r.size (alloc_all pool rs out.1))
          × All (Within pool v) (keep out.0 r.size (alloc_all pool rs out.1))
    go (none, next) o rest =
        let later = rest next o.2 in (later.0, Within-mono pool v next _ o.1 later.1)
    go (some p, next) o rest =
        let later = rest next o.5 in
        let behind = Within-mono pool (p + r.size) next _ (omega (arith, o.4)) later.1 in
        (
          (Within-Disjoint pool p r.size _ behind, later.0),
          ((o.0, o.3), Within-mono pool v (p + r.size) _ (omega (arith, o.0)) behind),
        )
