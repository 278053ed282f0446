-- ===== src/Aqueue/Runs.antt =====
-- A queue against a list: whole sequences of sends and receipts, and the queue's size and reset.
use mathlib.Core.Path.{subst}
use spoon_microkernel.Prelude.{
  ℕ, ◌+◌, ◌<◌, ◌≡◌, refl, ap, Bool, true, false, Option, some, List, [], ◌∷◌, ◌++◌, length,
  if◌then◌else◌, word_max, arith, length-take, length-drop, ◌-◌, drop,
}
use spoon_microkernel.Aqueue.{Aqueue, init, free_pages, reset, size, put, pull}
use spoon_microkernel.Aqueue.Flat.{flat, length-flat}
use spoon_microkernel.Aqueue.Inv.{IsValid}
use spoon_microkernel.Aqueue.Fifo.{
  contents, contents-put, put-IsValid, put-accepts, last_position-put,
}
use spoon_microkernel.Aqueue.Pull.{uncons, pull_refines, pull-IsValid, last_position-pull}

-- What callers do, each send with what `malloc` answers, and what they see.
pub data Op (A : Type 0) : Type 0 where
  send : (memory : Bool) → A → Op A
  receive : Op A

pub data Reply (A : Type 0) : Type 0 where
  sent : Bool → Reply A
  got : Option A → Reply A

module _ {A : Type 0} where
  unfoldable pub run : Aqueue A → List (Op A) → List (Reply A)
  run q [] = []
  run q (send memory a ∷ ops) = let (done, q') = put memory a q in sent done ∷ run q' ops
  run q (receive ∷ ops) = let (out, q') = pull q in got out ∷ run q' ops

  -- The replies of a first-in first-out list: a send is refused only without memory, and a
  -- receipt gives the oldest object.
  abbrev pub Replies : List (Option A) → List (Op A) → List (Reply A) → Type 0
  Replies xs [] [] = Unit
  Replies xs [] (_ ∷ _) = ⊥
  Replies xs (_ ∷ _) [] = ⊥
  Replies xs (send memory a ∷ ops) (sent done ∷ replies) =
      (memory ≡ true → done ≡ true) × Replies (if done then xs ++ (some a ∷ []) else xs) ops replies
  Replies xs (send _ _ ∷ ops) (got _ ∷ replies) = ⊥
  Replies xs (receive ∷ ops) (got out ∷ replies) =
      (out ≡ (uncons xs).0) × Replies (uncons xs).1 ops replies
  Replies xs (receive ∷ ops) (sent _ ∷ replies) = ⊥

  -- No sequence of sends and receipts tells a valid queue from the list of its contents, as long as
  -- the write position and the number of calls together stay below 2 ^ 32.
  pub run_refines :
      (ops : List (Op A)) {q : Aqueue A}
      → IsValid q
      → q.last_position + length ops < word_max
      → Replies (contents q) ops (run q ops)
  unfolding run
  run_refines [] v room = tt
  run_refines (send memory a ∷ ops) {q} v room = (
    accepted memory,
    subst (λ xs. Replies xs ops (run (put memory a q).1 ops))
        (contents-put v memory a (omega arith))
        (run_refines ops (put-IsValid v memory a (omega arith))
          (omega (arith, last_position-put v memory a))),
  )
    where
      accepted : (m : Bool) → m ≡ true → (put m a q).0 ≡ true
      accepted true e = put-accepts v a (omega arith)
      accepted false e = cc
  run_refines (receive ∷ ops) {q} v room = (
    ap (λ t. t.0) (pull_refines v),
    subst (λ xs. Replies xs ops (run (pull q).1 ops)) (ap (λ t. t.1) (pull_refines v))
        (run_refines ops (pull-IsValid v) (omega (arith, last_position-pull v))),
  )

  -- A queue as `aqueue_init` leaves it.
  pub init-IsValid :
      (obj_size obj_count : ℕ) → 0 < obj_count → IsValid (init {A = A} obj_size obj_count)
  init-IsValid obj_size obj_count h = record {
    count_pos = h;
    counted = refl;
    sized = tt;
    ordered = omega arith;
    in_page = omega arith;
    capacity = omega arith;
    tight = omega arith;
    small = omega arith;
    idle = refl;
  }

  free_pages-eq : (c : List (List (Option A))) → free_pages c ≡ []
  unfolding free_pages
  free_pages-eq [] = refl
  free_pages-eq (page ∷ rest) = free_pages-eq rest

  -- `aqueue_reset` leaves the queue as `aqueue_init` made it, all its pages freed.
  pub reset_lem : (q : Aqueue A) → reset q ≡ init q.obj_size q.obj_count
  unfolding reset
  reset_lem q = rw (free_pages-eq q.chain)

module _ {A : Type 0} {q : Aqueue A} (v : IsValid q) where
  open v use {ordered, capacity, small, sized}

  -- `aqueue_size` counts the contents: its subtraction does not wrap.
  pub size_lem : size q ≡ length (contents q)
  unfolding size
  size_lem = omega (
    arith,
    length-take (q.last_position - q.position) (drop q.position (flat q.chain)),
    length-drop q.position (flat q.chain),
    length-flat q.obj_count q.chain sized,
  )
