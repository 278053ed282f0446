-- ===== src/Threads/Tree/Unlink.antt =====
-- A thread with a parent enters and leaves the list and the tree of its process.
use spoon_microkernel.Prelude.{
  ℕ, ◌≤◌, ◌≡◌, ◌≢◌, refl, ap, false, some, List, [], ◌∷◌, ◌++◌, length, update, Fresh, Returns,
  Returns-bind,
}
use spoon_microkernel.Links.Laws.{IsList, list_remove_lem, list_insert_after_lem}
use spoon_microkernel.Family.{family_adopt, family_remove}
use spoon_microkernel.Family.Kids.{IsFamily, IsAlone}
use spoon_microkernel.Family.Add.{family_add_child_lem}
use spoon_microkernel.Family.Leave.{left_kids, parent_at, leave_lem}
use spoon_microkernel.Sched.{points_to}
use spoon_microkernel.Processes.{parent_of}
use spoon_microkernel.Threads.Tree.{ThreadTree, link_thread, unlink_thread}

-- The threads in the order of the list, with the children of each.
pub record IsTree (s : ThreadTree) (l : List ℕ) (kids : ℕ → List ℕ) : Type 0 where
  pub list : IsList s.lists l
  pub family : IsFamily s.family kids

-- `new_thread` puts the new thread behind the first one in the list, and makes it the first child of its
-- parent.
pub link_thread_lem :
    (s : ThreadTree) (h : ℕ) (l : List ℕ) (kids : ℕ → List ℕ) (p tr : ℕ)
    → IsTree s (h ∷ l) kids
    → s.threads ≡ some h
    → IsAlone s.family tr
    → Fresh tr (h ∷ l)
    → IsTree (link_thread (some p) tr s) (h ∷ tr ∷ l) (update kids p (tr ∷ kids p))
link_thread_lem s h l kids p tr v head alone new = rw head (record {
  list = (list_insert_after_lem s.lists [] h l tr v.list new).0;
  family = (family_add_child_lem s.family kids p tr v.family alone).0;
})

-- `delete_thread` of a thread that has a parent and is not the first takes it out of the list and the
-- tree, gives its children to its parent, the youngest first, and keeps the first thread.
pub unlink_thread_lem :
    (fuel : ℕ) (s : ThreadTree) (xs ys : List ℕ) (kids : ℕ → List ℕ) (p tr : ℕ)
    (elder younger : List ℕ)
    → IsTree s (xs ++ tr ∷ ys) kids
    → kids p ≡ elder ++ tr ∷ younger
    → p ≢ tr
    → s.family.object p ≡ p
    → points_to tr s.threads ≡ false
    → length (kids tr) ≤ fuel
    → Returns
        (unlink_thread fuel tr s)
        (λ s'. IsTree s' (xs ++ ys) (left_kids kids p tr elder younger) × (s'.threads ≡ s.threads))
unfolding unlink_thread
unlink_thread_lem fuel s xs ys kids p tr elder younger v at apart own later enough =
    let up = parent_at s.family kids p tr elder younger v.family at in
    let parent : parent_of s.family tr ≡ some p = rw (up, parent_of) (ap (λ (q : ℕ). some q) own) in
    rw parent (
      Returns-bind (family_adopt fuel p tr s.family) _
        (λ f.
          IsFamily (family_remove tr f) (left_kids kids p tr elder younger)
          × IsAlone (family_remove tr f) tr
          × ((family_remove tr f).object ≡ s.family.object))
        _
        (λ f (family, alone, same).
          rw later
            (record { list = (list_remove_lem s.lists xs tr ys v.list).0; family = family }, refl))
        (leave_lem s.family kids p tr elder younger v.family at fuel apart enough))
