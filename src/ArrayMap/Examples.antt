-- ===== src/ArrayMap/Examples.antt =====
-- Tables of four slots, as the device driver keeps them.
use mikanos_m1mac.Base.{ℕ, ◌≡◌, refl, none, some, List, arith, nat_Eq}
use mikanos_m1mac.ArrayMap.{Slot, empty, get, put, delete}
use mikanos_m1mac.ArrayMap.Laws.{get-put, get-delete}

abbrev fresh : List (Slot ℕ ℕ)
unfolding empty
fresh = empty 4 0

abbrev two : List (Slot ℕ ℕ)
unfolding put empty
two = put 9 90 (put 5 50 fresh)

get-put_example : get 5 (put 7 70 fresh) ≡ none
unfolding get empty
get-put_example = get-put 5 7 70 fresh refl (omega arith)

get-delete_example : get 9 (delete 5 two) ≡ some 90
unfolding get put empty
get-delete_example =
    get-delete 9 5 two ((refl, (refl, (refl, tt))), ((refl, (refl, tt)), (tt, (tt, tt))))

abbrev single : List (Slot ℕ ℕ)
unfolding put empty
single = put 2 20 (empty 1 0)

second_is_dropped : put 1 10 single ≡ single
unfolding put empty
second_is_dropped = refl
