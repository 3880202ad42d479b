-- ===== src/Ring/Queue.antt =====
-- A ring with its producer and its reader is a queue of at most `buf_size - 1` TRBs.
use mathlib.Core.List.{map-append}
use mikanos_m1mac.Base.{
  ℕ, zero, suc, ◌-◌, ◌<◌, ◌≡◌, refl, ap, ◌∙◌, subst, Bool, true, false, List, [], ◌∷◌, ◌++◌, map,
  inl, inr, arith, Option, none, some,
}
use mikanos_m1mac.Trb.{Trb, IsWords}
use mikanos_m1mac.Ring.{Ring, address, push}
use mikanos_m1mac.Ring.Writes.{stamp}
use mikanos_m1mac.Ring.Invariant.{last_slot, slot}
use mikanos_m1mac.Ring.Window.{pending, pending-push}
use mikanos_m1mac.Ring.Reader.{Position, fetch, back, IsPayload, IsLag, fetch-none, fetch-some}
use mikanos_m1mac.Ring.Lag.{push_keeps, back-push, push-IsLag}

pub data Op : Type 0 where
  produce : Trb → Op
  consume : Op

-- What the reader sees of a TRB, its cycle bit aside.
abbrev pub content : Trb → Trb
content = stamp false

content-stamp : (c : Bool) (t : Trb) → content (stamp c t) ≡ content t
content-stamp true t = ap (λ w. record t { d3 = w }) (omega arith)
content-stamp false t = ap (λ w. record t { d3 = w }) (omega arith)

-- The calls on a ring and its reader in turn, and what the reader gets.
unfoldable pub run : Ring → Position → List Op → List (Option Trb)
run r p [] = []
run r p (produce t ∷ ops) = run (push t r).1 p ops
run r p (consume ∷ ops) = elim (fetch (address r.buf) r.mem p) [
  | none ↦ none ∷ run r p ops
  | some (t, p') ↦ some (content t) ∷ run r p' ops
]

-- The same calls on a queue.
unfoldable pub run_queue : List Trb → List Op → List (Option Trb)
run_queue q [] = []
run_queue q (produce t ∷ ops) = run_queue (q ++ content t ∷ []) ops
run_queue [] (consume ∷ ops) = none ∷ run_queue [] ops
run_queue (t ∷ q) (consume ∷ ops) = some t ∷ run_queue q ops

-- With `n` TRBs unread, no call of `Push` in the sequence comes when `room` are, and none pushes a
-- link TRB.
abbrev pub Fits : ℕ → ℕ → List Op → Type 0
Fits room n [] = Unit {0}
Fits room n (produce t ∷ ops) = IsWords t × IsPayload t × (n < room) × Fits room (suc n) ops
Fits room n (consume ∷ ops) = Fits room (n - 1) ops

-- What the reader has yet to read.
abbrev pub contents : Ring → ℕ → List Trb
contents r n = map content (pending r n)

contents-push :
    (t : Trb) (r : Ring) (n : ℕ)
    → IsWords t
    → IsLag r n
    → n < last_slot r
    → contents (push t r).1 (suc n) ≡ contents r n ++ content t ∷ []
contents-push t r n w lag h = rw (pending-push t r n w lag.ring h) (
    map-append content (pending r n) (stamp r.cycle_bit t ∷ [])
    ∙ ap (λ s. contents r n ++ s ∷ []) (content-stamp r.cycle_bit t))

-- One TRB less is unread.
IsLag-pred : (r : Ring) (n : ℕ) → IsLag r (suc n) → IsLag r n
unfolding pending
IsLag-pred r n lag = record {
  ring = lag.ring;
  fits = omega (arith, lag.fits);
  linked = elim lag.linked [ inl le ↦ inl (omega arith) | inr link ↦ inr link ];
  payload = lag.payload.1;
}

-- As long as no more than `buf_size - 1` TRBs are unread, every sequence of calls of `Push` and
-- reads gives the reader what a queue would give it: each TRB once, unchanged but for the cycle bit,
-- in the order of the calls, and nothing when all are read.
pub run_refines :
    (ops : List Op) (r : Ring) (n : ℕ)
    → IsLag r n
    → Fits (last_slot r) n ops
    → run r (back r n) ops ≡ run_queue (contents r n) ops
unfolding run run_queue back pending
run_refines [] r n lag fits = refl
run_refines (produce t ∷ ops) r n lag fits =
    rw (← contents-push t r n fits.0 lag fits.2, ← back-push t r n fits.0 lag.ring fits.2)
      (run_refines ops (push t r).1 (suc n) (push-IsLag t r n fits.0 fits.1 lag fits.2)
        (rw ((push_keeps t r).1) fits.3))
run_refines (consume ∷ ops) r zero lag fits =
    rw (fetch-none r lag.ring, run) (ap (λ rest. none ∷ rest) (run_refines ops r zero lag fits))
run_refines (consume ∷ ops) r (suc n) lag fits =
    rw (fetch-some r n lag, run)
      (ap (λ rest. some (content (slot r (back r (suc n)).0)) ∷ rest)
        (run_refines ops r n (IsLag-pred r n lag)
          (subst (λ k. Fits (last_slot r) k ops) {y = n} (omega arith) fits)))
