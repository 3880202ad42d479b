-- ===== src/Ring/Start.antt =====
-- `Ring::Initialize`: the ring that it leaves.
use mikanos_m1mac.Base.{
  ℕ, ◌+◌, ◌*◌, ◌^◌, ◌≤◌, ◌≡◌, refl, ap, true, inl, inr, arith, Option, none, some, replicate,
  length-replicate, get_or-replicate,
}
use mikanos_m1mac.Errors.{Code, success, no_enough_memory}
use mikanos_m1mac.Memory.{alloc_array, memory_pool_size}
use mikanos_m1mac.Memory.Placement.{IsValid}
use mikanos_m1mac.Memory.Results.{Outcome, alloc_array-Outcome}
use mikanos_m1mac.Trb.{zero_trb, cycle_bit}
use mikanos_m1mac.Ring.{Ring, initialize, address, trb_size, started}
use mikanos_m1mac.Ring.Invariant.{IsRing}
use mikanos_m1mac.Ring.Window.{pending}
use mikanos_m1mac.Ring.Reader.{IsLag}

-- What `Initialize` may return.
abbrev pub Initialized : ℕ → ℕ → Code × Ring × ℕ → Type 0
Initialized memory_pool buf_size (success, r, next) =
    IsLag r 0
    × (r.buf_size ≡ buf_size)
    × (r.write_index ≡ 0)
    × (address r.buf + trb_size * buf_size ≤ memory_pool + memory_pool_size)
    × IsValid memory_pool next
Initialized memory_pool buf_size (code, r, next) =
    (code ≡ no_enough_memory) × (r.buf ≡ none) × IsValid memory_pool next

module _ (pool n v : ℕ) (valid : IsValid pool v) (two : 2 ≤ n) (small : n ≤ 2 ^ 32) where
  fresh-IsRing :
      (p next : ℕ)
      → Outcome pool (trb_size * n) 64 (64 * 1024) v (some p, next)
      → IsRing (record {
        buf = some p;
        mem = replicate n zero_trb;
        buf_size = n;
        cycle_bit = true;
        write_index = 0;
      })
  fresh-IsRing p next o = record {
    two_slots = two;
    small = small;
    memory = length-replicate n zero_trb;
    in_range = omega arith;
    aligned = elim o.1 [ inl e ↦ absurd (omega arith) | inr e ↦ e ];
    base = omega arith;
    behind = λ i h. absurd (omega arith);
    ahead = λ i h h'. ap cycle_bit (get_or-replicate n i zero_trb);
  }

  initialized :
      (out : Option ℕ × ℕ) (r : Ring)
      → Outcome pool (trb_size * n) 64 (64 * 1024) v out
      → Initialized pool n (started out n r)
  unfolding started pending
  initialized (none, next) r o = (refl, refl, o.2)
  initialized (some p, next) r o = (
    record {
      ring = fresh-IsRing p next o;
      fits = omega arith;
      linked = inl (omega arith);
      payload = tt;
    },
    refl,
    refl,
    o.3,
    o.5,
  )

pub initialize-Initialized :
    (memory_pool buf_size : ℕ) (r : Ring) (alloc_ptr : ℕ)
    → IsValid memory_pool alloc_ptr
    → 2 ≤ buf_size
    → buf_size ≤ 2 ^ 32
    → Initialized memory_pool buf_size (initialize memory_pool buf_size r alloc_ptr)
unfolding initialize
initialize-Initialized pool n r v valid two small =
    initialized pool n v valid two small (alloc_array pool trb_size n 64 (64 * 1024) v) r (
      alloc_array-Outcome pool trb_size n 64 (64 * 1024) v (inr (6, omega arith, refl))
        (inr (16, omega arith, refl)) (omega arith) valid)
