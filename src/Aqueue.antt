-- ===== src/Aqueue.antt =====
-- kernel/src/ds/aqueue.c and kernel/src/include/ds/aqueue.h: the paged FIFO queue of the kernel.
-- The linked list from `page` to `last_page` is the list `chain`; a page is its object slots, and a
-- slot that nothing has been written to is `none`. What `malloc` returns is an argument: `true` for
-- memory, `false` for NULL. The spinlock is not a field: one caller runs at a time.

pub mod Flat
pub mod Inv
pub mod Fifo
pub mod Pull
pub mod Peek
pub mod Runs
mod Tests
use spoon_microkernel.Prelude.{
  ℕ, zero, suc, ◌+◌, ◌-◌, ◌/◌, ◌%◌, Bool, true, false, ◌&&◌, Option, none, some, List, [], ◌∷◌,
  ◌++◌, length, get_or, set, drop, replicate, leb, ◌==◌, if◌then◌else◌, add32, sub32,
}

-- `struct ds_aqueue_page` and the objects behind its header.
abbrev pub Page : Type 0 → Type 0
Page A = List (Option A)

-- `struct ds_aqueue`
pub record Aqueue (A : Type 0) : Type 0 where
  pub pages : ℕ
  pub obj_size : ℕ
  pub obj_count : ℕ
  pub position : ℕ
  pub last_position : ℕ
  pub staging : ℕ
  pub chain : List (Page A)

-- The pointers that the queue hands out: the page's place in the chain, and the object's in the
-- page (the source's address is the page's, plus the header, plus `obj_size * index`).
pub record Slot : Type 0 where
  pub page : ℕ
  pub index : ℕ

module _ {A : Type 0} where
  -- `aqueue_init`
  abbrev pub init : (obj_size obj_count : ℕ) → Aqueue A
  init obj_size obj_count = record {
    pages = 0;
    obj_size = obj_size;
    obj_count = obj_count;
    position = 0;
    last_position = 0;
    staging = 0;
    chain = [];
  }

  -- The loop of `aqueue_reset` frees the pages one by one.
  free_pages : List (Page A) → List (Page A)
  free_pages [] = []
  free_pages (page ∷ rest) = free_pages rest

  -- `aqueue_reset`
  unfoldable pub reset : Aqueue A → Aqueue A
  unfolding free_pages
  reset q =
      let emptied = record q { chain = free_pages q.chain } in
      record (init emptied.obj_size emptied.obj_count) { chain = emptied.chain }

  -- `aqueue_size`
  unfoldable pub size : Aqueue A → ℕ
  size q = sub32 q.last_position q.position

  -- `aqueue_unlock`
  unfoldable pub unlock : Aqueue A → Aqueue A
  unlock q = record q { staging = 0 }

  -- `aqueue_new`
  unfoldable pub new : (memory : Bool) → Aqueue A → Option Slot × Aqueue A
  new memory q =
      let page_div = q.last_position / q.obj_count in
      let page_mod = q.last_position % q.obj_count in
      if page_mod == 0 && leb q.pages page_div
      then (if memory
          then (
            some (record { page = length q.chain; index = page_mod }),
            record q {
              pages = add32 q.pages 1;
              chain = q.chain ++ (replicate q.obj_count none ∷ []);
              staging = 1;
            },
          )
          else (none, q))
      else (some (record { page = length q.chain - 1; index = page_mod }), record q { staging = 1 })

  -- `aqueue_save`
  unfoldable pub save : Aqueue A → Aqueue A
  save q =
      if q.staging == 1
      then record q { last_position = add32 q.last_position 1; staging = 0 }
      else q

  -- `aqueue_get`
  unfoldable pub get : Aqueue A → Option Slot
  get q =
      if q.position == q.last_position
      then none
      else some (record { page = 0; index = q.position % q.obj_count })

  -- The loop of `aqueue_next` that frees the pages read to their end; `page_div` counts down.
  unfoldable pub trim : (page_div : ℕ) → Aqueue A → Aqueue A
  trim zero q = q
  trim (suc page_div) q = trim page_div (record q {
    chain = drop 1 q.chain;
    last_position = sub32 q.last_position q.obj_count;
    position = sub32 q.position q.obj_count;
    pages = sub32 q.pages 1;
  })

  -- `aqueue_next`
  unfoldable pub next : Aqueue A → Option Slot × Aqueue A
  unfolding trim
  next q =
      if q.position == q.last_position
      then (none, record q { position = 0; last_position = 0 })
      else (let page_mod = q.position % q.obj_count in
          let trimmed = trim (q.position / q.obj_count) q in
          (
            some (record { page = 0; index = page_mod }),
            record trimmed { position = add32 trimmed.position 1 },
          ))

  -- A read and a write through such a pointer. One that names no slot reads nothing and writes
  -- nothing.
  unfoldable pub load : Aqueue A → Slot → Option A
  load q s = get_or (get_or q.chain s.page []) s.index none

  unfoldable pub store : Aqueue A → Slot → A → Aqueue A
  store q s a = record q {
    chain = set q.chain s.page (set (get_or q.chain s.page []) s.index (some a));
  }

  -- What the senders of a message or a pulse do with the queue between its lock and its unlock.
  unfoldable pub put : (memory : Bool) → A → Aqueue A → Bool × Aqueue A
  unfolding new save store unlock
  put memory a q =
      let (slot, staged) = new memory q in
      elim slot [
        | none ↦ (false, unlock staged)
        | some s ↦ (true, unlock (save (store staged s a)))
      ]

  -- What the receivers do.
  unfoldable pub pull : Aqueue A → Option A × Aqueue A
  unfolding next load unlock
  pull q =
      let (slot, q') = next q in
      elim slot [ none ↦ (none, unlock q') | some s ↦ (load q' s, unlock q') ]
