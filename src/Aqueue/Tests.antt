-- ===== src/Aqueue/Tests.antt =====
-- The queue at concrete inputs.
use spoon_microkernel.Prelude.{ℕ, ◌≡◌, refl, true, false, none, some, List, [], ◌∷◌, arith}
use spoon_microkernel.Aqueue.{Aqueue, init, new, unlock, put, pull}
use spoon_microkernel.Aqueue.Inv.{IsValid}
use spoon_microkernel.Aqueue.Peek.{peek, peek_stale}
use spoon_microkernel.Aqueue.Runs.{Op, send, receive, sent, got, Replies, run, run_refines}

-- Two objects to a page: three are in, and the first has been read.
abbrev three : Aqueue ℕ
three = record {
  pages = 2;
  obj_size = 4;
  obj_count = 2;
  position = 1;
  last_position = 3;
  staging = 0;
  chain = (some 1 ∷ some 2 ∷ []) ∷ (some 3 ∷ none ∷ []) ∷ [];
}

-- The first page has been read to its end.
abbrev at_edge : Aqueue ℕ
at_edge = record three { position = 2 }

abbrev script : List (Op ℕ)
script =
    send true 4 ∷ receive ∷ receive ∷ receive ∷ receive ∷ send false 5 ∷ send true 6 ∷ receive ∷ []

built : (pull (put true 3 (put true 2 (put true 1 (init 4 2)).1).1).1).1 ≡ three
unfolding put pull
built = refl

run-three :
    run three script
    ≡ sent true
      ∷ got (some 2)
      ∷ got (some 3)
      ∷ got (some 4)
      ∷ got none
      ∷ sent true
      ∷ sent true
      ∷ got (some 5)
      ∷ []
unfolding run put pull
run-three = refl

-- What a caller sees who lets a slot go by unlocking, as the comment of `aqueue_new` allows: on a
-- queue read to the end of its page, the next object sent is not the next received.
abbrev discarded : Aqueue ℕ
unfolding put pull new unlock
discarded = unlock (new true (pull (pull (put true 2 (put true 1 (init 4 2)).1).1).1).1).1

discard_misplaces :
    run discarded (receive ∷ send true 7 ∷ receive ∷ []) ≡ got none ∷ sent true ∷ got (some 1) ∷ []
unfolding run put pull discarded
discard_misplaces = refl

three-IsValid : IsValid three
three-IsValid = omega arith

at_edge-IsValid : IsValid at_edge
at_edge-IsValid = omega arith

-- `aqueue_get` shows 1, read long ago, where `aqueue_next` takes 3.
peek_stale_example : (peek at_edge ≡ some 1) × ((pull at_edge).0 ≡ some 3)
peek_stale_example = peek_stale at_edge-IsValid refl (omega arith)

run_refines_example : Replies (some 2 ∷ some 3 ∷ []) script (run three script)
run_refines_example = run_refines script three-IsValid (omega arith)
