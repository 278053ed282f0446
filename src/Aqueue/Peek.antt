-- ===== src/Aqueue/Peek.antt =====
-- `aqueue_get`, which looks at the first object and leaves it there.
use native.Mathlib.Nat.{mod-eq_of_lt, mod-lt}
use native.Mathlib.Decide.{dec_lt}
use spoon_microkernel.Prelude.{
  ◌%◌, ◌<◌, ◌≡◌, ap, sym, ◌∙◌, Option, none, some, length, get_or, arith, ◌≢◌, ◌-◌,
}
use spoon_microkernel.Aqueue.{Aqueue, load, get, pull}
use spoon_microkernel.Aqueue.Flat.{flat, length-flat, get_or-flat}
use spoon_microkernel.Aqueue.Inv.{IsValid}
use spoon_microkernel.Aqueue.Fifo.{contents}
use spoon_microkernel.Aqueue.Pull.{uncons, uncons_head, pull_at_edge}

module _ {A : Type 0} where
  -- The object that a caller of `aqueue_get` sees.
  unfoldable pub peek : Aqueue A → Option A
  unfolding get load
  peek q = elim (get q) [ none ↦ none | some s ↦ load q s ]

module _ {A : Type 0} {q : Aqueue A} (v : IsValid q) where
  open v use {count_pos, sized, ordered, in_page, capacity}

  peek_empty : q.position ≡ q.last_position → peek q ≡ none
  unfolding peek
  peek_empty e = ground arith

  -- `aqueue_get` reads the first page, at the read position modulo the size of a page.
  peek_slot :
      q.position < q.last_position → peek q ≡ get_or (flat q.chain) (q.position % q.obj_count) none
  unfolding peek
  peek_slot lt = ground (
    arith,
    get_or-flat q.obj_count q.chain 0 (q.position % q.obj_count) (q.position % q.obj_count) sized
        (mod-lt q.position count_pos) some_page (omega arith),
  )
    where
      some_page : 0 < length q.chain
      some_page = grind arith

  -- While the read position is inside the first page, `aqueue_get` shows the object that
  -- `aqueue_next` would take, and nothing on an empty queue.
  pub peek_refines : q.position ≢ q.obj_count → peek q ≡ (uncons (contents q)).0
  peek_refines ne = elim (dec_lt q.position q.last_position) [
    | yes lt ↦
        peek_slot lt
        ∙ ap (λ k. get_or (flat q.chain) k none) (mod-eq_of_lt (omega arith))
        ∙ sym (
            uncons_head q.position q.last_position (flat q.chain) lt
              (omega (arith, length-flat q.obj_count q.chain sized)))
    | no empty ↦
        let none_left : q.last_position - q.position ≡ 0 = omega arith in
        rw (peek_empty (omega arith), none_left)
  ]

  -- At the end of the first page it shows the first slot of that page, long read, and not the
  -- object that `aqueue_next` would take.
  pub peek_stale :
      q.position ≡ q.obj_count
      → q.position < q.last_position
      → (peek q ≡ get_or (flat q.chain) 0 none)
        × ((pull q).0 ≡ get_or (flat q.chain) q.obj_count none)
  peek_stale edge lt =
      let start : q.position % q.obj_count ≡ 0 = grind arith in
      (peek_slot lt ∙ ap (λ k. get_or (flat q.chain) k none) start, pull_at_edge v lt edge)
