-- ===== src/Threads/Tree.antt =====
-- kernel/src/threads.c: the list and the tree of the threads of a process, as `new_thread` and
-- `delete_thread` keep them.
pub mod Unlink
mod Tests
use spoon_microkernel.Prelude.{ℕ, zero, suc, Option, none, some, ◌==◌, if◌then◌else◌, ◌>>=◌}
use spoon_microkernel.Links.{Lists, list_insert_after, list_remove}
use spoon_microkernel.Family.{
  Family, family_add_child, family_add_sibling, family_adopt, family_remove,
}
use spoon_microkernel.Sched.{points_to}
use spoon_microkernel.Processes.{parent_of}

-- `proc->threads`, and the links of all threads.
pub record ThreadTree : Type 0 where
  pub lists : Lists
  pub family : Family
  pub threads : Option ℕ

-- The tree of `new_thread`, where there is a first thread.
abbrev pub join_family : (head : ℕ) (parent : Option ℕ) (tr : ℕ) → Family → Family
join_family head none tr f = family_add_sibling head tr f
join_family head (some p) tr f = family_add_child p tr f

-- `new_thread`, from its test of `proc->threads` on; the first argument is that pointer.
abbrev pub link_at : Option ℕ → (parent : Option ℕ) (tr : ℕ) → ThreadTree → ThreadTree
link_at none parent tr s = record s { threads = some tr }
link_at (some head) parent tr s = record s {
  family = join_family head parent tr s.family;
  lists = list_insert_after head tr s.lists;
}

abbrev pub link_thread : (parent : Option ℕ) (tr : ℕ) → ThreadTree → ThreadTree
link_thread parent tr s = link_at s.threads parent tr s

-- `CHILD` and `NEXT_SIBLING`
abbrev pub child_of : Family → ℕ → Option ℕ
child_of f p = elim (f.child p) [ none ↦ none | some q ↦ some (f.object q) ]

abbrev pub sibling_of : Family → ℕ → Option ℕ
sibling_of f p = elim (f.sibling_next p) [ none ↦ none | some q ↦ some (f.object q) ]

-- The loop of `delete_thread` over the children of a thread without a parent.
unfoldable pub orphan_loop : (fuel tr : ℕ) (child : Option ℕ) → Family → Option Family
orphan_loop fuel tr none f = some f
orphan_loop zero tr (some c) f = none
orphan_loop (suc fuel) tr (some c) f =
    let f' = family_add_sibling tr c (family_remove c f) in orphan_loop fuel tr (child_of f' tr) f'

-- "Save the children."
unfoldable pub save_children : (fuel tr : ℕ) (parent : Option ℕ) → Family → Option Family
unfolding orphan_loop
save_children fuel tr none f = orphan_loop fuel tr (child_of f tr) f
save_children fuel tr (some p) f = family_adopt fuel p tr f

-- `delete_thread`, from there to "Now clean up the thread". The assertion about the previous sibling
-- holds, since `family_remove` has cleared it.
unfoldable pub unlink_thread : (fuel tr : ℕ) → ThreadTree → Option ThreadTree
unfolding save_children
unlink_thread fuel tr s = do
  f ← save_children fuel tr (parent_of s.family tr) s.family
  some (record {
    family = family_remove tr f;
    lists = list_remove tr s.lists;
    threads = if points_to tr s.threads then sibling_of f tr else s.threads;
  })
