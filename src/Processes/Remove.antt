-- ===== src/Processes/Remove.antt =====
-- `remove_process` on the list, the tree and the table of processes together.
use spoon_microkernel.Prelude.{
  ℕ, suc, ◌≤◌, ◌≡◌, ◌≢◌, refl, sym, ap, ◌∙◌, Bool, some, List, [], ◌∷◌, ◌++◌, length, All, All-left,
  All-right, All-append, All-map, Distinct-middle, Distinct-right, ◌==◌, ==_iff, Returns,
  Returns-bind, arith,
}
use spoon_microkernel.Prelude.Int.{pos}
use spoon_microkernel.Rwlock.{init_rwlock}
use spoon_microkernel.Htable.{HashTable, remove}
use spoon_microkernel.Htable.Stores.{Holds, KeysFit}
use spoon_microkernel.Htable.Erase.{Drops, Compares, remove_lem}
use spoon_microkernel.Links.{list_remove}
use spoon_microkernel.Links.Laws.{list_remove_lem}
use spoon_microkernel.Family.{Family, family_adopt, family_remove}
use spoon_microkernel.Family.Kids.{IsFamily, IsAlone}
use spoon_microkernel.Family.Leave.{left_kids, parent_at, leave_lem}
use spoon_microkernel.Processes.{Processes, ptable_key, parent_of, remove_process}
use spoon_microkernel.Processes.Locks.{try_write_free}
use spoon_microkernel.Processes.Tree.{IsProcesses, own_key}

pointers : Compares ◌==◌
pointers = record { equal = λ a. (==_iff a a).1 refl; only = λ a b h. (==_iff a b).0 h }

module _ (s : Processes) (r : ℕ) (xs ys : List ℕ) (x : ℕ) (kids : ℕ → List ℕ)
    (v : IsProcesses s (r ∷ xs ++ x ∷ ys) kids) where
  abbrev shrunk : Family → HashTable ℕ → Processes
  shrunk f table = record s {
    family = family_remove x f;
    lists = list_remove x s.lists;
    table = table;
    process_lock = init_rwlock;
  }

  -- The others are not `x`.
  others : All (λ q. q ≢ x) (r ∷ xs ++ ys)
  others =
      let d = v.walks.listed.0 in
      All-append (λ q. q ≢ x) (r ∷ xs) ys
        (All-map (λ q. x ≢ q) (λ q. q ≢ x) (r ∷ xs) (λ q far e. far (sym e))
          (Distinct-middle (r ∷ xs) x ys d))
        (All-map (λ q. x ≢ q) (λ q. q ≢ x) ys (λ q far e. far (sym e))
          (Distinct-right (r ∷ xs) (x ∷ ys) d).0)

  without : (P : ℕ → Type 0) → All P (r ∷ xs ++ x ∷ ys) → All P (r ∷ xs ++ ys)
  without P h =
      All-append P (r ∷ xs) ys (All-left P (r ∷ xs) (x ∷ ys) h) (All-right P (r ∷ xs) (x ∷ ys) h).1

  shrunk-IsProcesses :
      (f : Family) (table : HashTable ℕ) (left : ℕ → List ℕ)
      → IsFamily (family_remove x f) left
      → (family_remove x f).object ≡ s.family.object
      → Drops x s.table table
      → IsProcesses (shrunk f table) (r ∷ xs ++ ys) left
  shrunk-IsProcesses f table left family same w =
      let (listed, _, _, spares) = list_remove_lem s.lists (r ∷ xs) x ys v.walks.listed in
      record {
        walks = record {
          listed = listed;
          start = v.walks.start;
          owned =
              All-map (λ q. s.lists.object q ≡ q) _ (r ∷ xs ++ ys) (λ q e. spares.objects q ∙ e)
                (without (λ q. s.lists.object q ≡ q) v.walks.owned);
        };
        family = family;
        owned =
            All-map (λ q. s.family.object q ≡ q) _ (r ∷ xs ++ ys)
              (λ q e. ap (λ (o : ℕ → ℕ). o q) same ∙ e)
              (without (λ q. s.family.object q ≡ q) v.owned);
        table = w.sound;
        sparse = omega (arith, w.percent, v.sparse);
        stored = kept (r ∷ xs ++ ys) others (without (λ q. Holds s.table q) v.stored);
        free = refl;
      }
    where
      kept :
          (l : List ℕ)
          → All (λ q. q ≢ x) l
          → All (λ q. Holds s.table q) l
          → All (λ q. Holds table q) l
      kept [] far h = tt
      kept (q ∷ l) far h = (w.others q far.0 h.0, kept l far.1 h.1)

-- `remove_process` of a process that is not the root takes it out of the list and the tree, and gives
-- its children to its parent, before the parent's own, the youngest first, if the keys of the table stay
-- below 2 ^ 31 by its size; the table holds one pointer less and still all other processes of the list,
-- and no name or number changes.
pub remove_process_lem :
    (memory : ℕ → Bool) (depth fuel : ℕ) (s : Processes) (r : ℕ) (xs ys : List ℕ) (x p : ℕ)
    (elder younger : List ℕ) (kids : ℕ → List ℕ)
    → IsProcesses s (r ∷ xs ++ x ∷ ys) kids
    → kids p ≡ elder ++ x ∷ younger
    → p ≢ x
    → s.family.object p ≡ p
    → length (kids x) ≤ fuel
    → KeysFit (own_key s) s.table.size s.table
    → Returns (remove_process memory (suc depth) fuel x s) (λ s'.
      IsProcesses s' (r ∷ xs ++ ys) (left_kids kids p x elder younger)
      × IsAlone s'.family x
      × (suc s'.table.total ≡ s.table.total)
      × (s'.entry ≡ s.entry))
unfolding remove_process
remove_process_lem memory depth fuel s r xs ys x p elder younger kids v at apart own enough fit =
    let up = parent_at s.family kids p x elder younger v.family at in
    let parent : parent_of s.family x ≡ some p = rw (up, parent_of) (ap (λ (q : ℕ). some q) own) in
    let held = (All-right (λ q. Holds s.table q) (r ∷ xs) (x ∷ ys) v.stored).0 in
    let left = left_kids kids p x elder younger in
    rw (try_write_free s.process_lock v.free) (
      rw parent (
        Returns-bind (family_adopt fuel p x s.family) _
          (λ f.
            IsFamily (family_remove x f) left
            × IsAlone (family_remove x f) x
            × ((family_remove x f).object ≡ s.family.object))
          _
          (λ f (family, alone, same).
            Returns-bind
              (remove (λ q. ptable_key (s.entry q).pid) ◌==◌ memory (suc depth) x s.table) _
              (λ o. (o.0 ≡ pos 0) × Drops x s.table o.1) _
              (λ o h. (
                shrunk-IsProcesses s r xs ys x kids v f o.1 left family same h.1,
                alone,
                h.1.total,
                refl,
              ))
              (remove_lem (λ q. ptable_key (s.entry q).pid) ◌==◌ memory depth x s.table pointers
                v.table v.sparse held fit))
          (leave_lem s.family kids p x elder younger v.family at fuel apart enough)))
