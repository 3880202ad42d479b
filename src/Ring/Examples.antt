-- ===== src/Ring/Examples.antt =====
-- A ring of three slots, two of them for TRBs, and the theorems on it.
use mikanos_m1mac.Base.{◌≡◌, refl, true, false, List, [], ◌∷◌, take, ◌⊎◌, none, some, arith}
use mikanos_m1mac.Memory.{alloc_array, alloc_mem, ceil}
use mikanos_m1mac.Memory.Placement.{IsValid}
use mikanos_m1mac.Trb.{Trb, IsWords, zero_trb}
use mikanos_m1mac.Trb.Normal
use mikanos_m1mac.Trb.StatusStage
use mikanos_m1mac.Ring.{Ring, push, initialize, apply_writes, copy_writes}
use mikanos_m1mac.Ring.Writes.{stamp, copy_writes_ordered}
use mikanos_m1mac.Ring.Invariant.{IsRing, push-IsRing}
use mikanos_m1mac.Ring.Reader.{IsLag, back}
use mikanos_m1mac.Ring.Start.{Initialized, initialize-Initialized}
use mikanos_m1mac.Ring.Window.{pending}
use mikanos_m1mac.Ring.Queue.{Op, produce, consume, run, run_queue, run_refines}

abbrev unset : Ring
unset = record { buf = none; mem = []; buf_size = 0; cycle_bit = false; write_index = 0 }

abbrev fresh : Ring
fresh = record {
  buf = some 0x10_0000;
  mem = zero_trb ∷ zero_trb ∷ zero_trb ∷ [];
  buf_size = 3;
  cycle_bit = true;
  write_index = 0;
}

initialize-fresh : (initialize 0x10_0000 3 unset 0x10_0000).1 ≡ fresh
unfolding initialize alloc_array alloc_mem ceil
initialize-fresh = refl

pool_IsValid : IsValid 0x10_0000 0x10_0000
pool_IsValid = omega arith

initialize-Initialized_example : Initialized 0x10_0000 3 (initialize 0x10_0000 3 unset 0x10_0000)
initialize-Initialized_example =
    initialize-Initialized 0x10_0000 3 unset 0x10_0000 pool_IsValid (omega arith) (omega arith)

fresh-IsLag : IsLag fresh 0
unfolding initialize alloc_array alloc_mem ceil
fresh-IsLag = initialize-Initialized_example.0

abbrev status : Trb
status = StatusStage.new

-- The third call wraps the ring; the reader follows the link TRB.
abbrev script : List Op
script =
    produce Normal.new
    ∷ produce status
    ∷ consume
    ∷ produce status
    ∷ consume
    ∷ consume
    ∷ consume
    ∷ []

run_refines_example :
    run fresh (back fresh 0) script ≡ some Normal.new ∷ some status ∷ some status ∷ none ∷ []
unfolding back run_queue pending
run_refines_example = run_refines script fresh 0 fresh-IsLag (omega arith)

status-IsWords : IsWords status
status-IsWords = omega arith

push-IsRing_example : IsRing (push status fresh).1
push-IsRing_example = push-IsRing status fresh status-IsWords fresh-IsLag.ring

-- After three writes the slot still shows the old cycle bit.
copy_writes_ordered_example :
    ((apply_writes (take 3 (copy_writes true status)) zero_trb).d3 ≡ 0)
    ⊎ (apply_writes (take 3 (copy_writes true status)) zero_trb ≡ stamp true status)
copy_writes_ordered_example = copy_writes_ordered 3 true status zero_trb status-IsWords
