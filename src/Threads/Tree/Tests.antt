-- ===== src/Threads/Tree/Tests.antt =====
-- Tests of the list and the tree of threads.
use spoon_microkernel.Prelude.{ℕ, ◌≡◌, refl, Option, none, some}
use spoon_microkernel.Links.{list_insert_after, list_remove}
use spoon_microkernel.Family.{family_add_child, family_add_sibling, family_remove}
use spoon_microkernel.Processes.{next_linear}
use spoon_microkernel.Threads.Tree.{ThreadTree, link_thread, unlink_thread}

abbrev no_threads : ThreadTree
no_threads = record {
  lists = record { object = λ p. p; prev = λ _. none; next = λ _. none };
  family = record {
    object = λ p. p;
    parent = λ _. none;
    child = λ _. none;
    sibling_prev = λ _. none;
    sibling_next = λ _. none;
  };
  threads = none;
}

-- The first thread starts the threads 2 and 3 and is deleted.
abbrev without_first : Option ThreadTree
without_first =
    unlink_thread 2 1
      (link_thread (some 1) 3 (link_thread (some 1) 2 (link_thread none 1 no_threads)))

abbrev head_of : Option ThreadTree → Option ℕ
head_of none = none
head_of (some s) = s.threads

abbrev next_of : ℕ → Option ThreadTree → Option ℕ
next_of p none = none
next_of p (some s) = next_linear s.lists p

-- `proc->threads` is then thread 2, but the list runs from 3 to 2, so that a walk misses thread 3.
second_is_head : head_of without_first ≡ some 2
unfolding unlink_thread list_insert_after list_remove family_add_child family_add_sibling
    family_remove
second_is_head = refl

second_is_last : next_of 2 without_first ≡ none
unfolding unlink_thread list_insert_after list_remove family_add_child family_add_sibling
    family_remove
second_is_last = refl

third_before_second : next_of 3 without_first ≡ some 2
unfolding unlink_thread list_insert_after list_remove family_add_child family_add_sibling
    family_remove
third_before_second = refl
