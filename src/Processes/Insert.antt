-- ===== src/Processes/Insert.antt =====
-- `insert_process` on the list, the tree and the table of processes together.
use mathlib.Core.Path.{subst}
use mathlib.Core.Bool.{true≢false}
use spoon_microkernel.Prelude.{
  ℕ, suc, ◌<◌, ◌≤◌, ◌+◌, ◌*◌, ◌^◌, ◌≡◌, refl, sym, ap, ◌∙◌, Bool, false, Option, inl, inr, none,
  some, List, [], ◌∷◌, update, All-map, Fresh, Returns, Returns-bind, ◌>>=◌, arith,
}
use spoon_microkernel.Prelude.Int.{pos, ◌==ℤ◌, ==ℤ_iff}
use spoon_microkernel.Rwlock.{init_rwlock}
use spoon_microkernel.Htable.{HashTable, magnitude, insert}
use spoon_microkernel.Htable.Stores.{Holds, IsSound, KeysFit, Stores, Inserted}
use spoon_microkernel.Htable.Grow.{insert_total}
use spoon_microkernel.Links.{list_insert_after}
use spoon_microkernel.Links.Laws.{list_insert_after_lem}
use spoon_microkernel.Family.{family_add_child}
use spoon_microkernel.Family.Kids.{IsAlone}
use spoon_microkernel.Family.Add.{family_add_child_lem}
use spoon_microkernel.Processes.{Processes, ptable_key, with_pid, insert_at, insert_process}
use spoon_microkernel.Processes.Locks.{try_write_free}
use spoon_microkernel.Processes.Pids.{with_pid_lem}
use spoon_microkernel.Processes.Tree.{IsProcesses, own_key}

-- A process with the number is found.
parent_lem :
    (s : Processes) (pid q : ℕ)
    → IsSound s.table
    → Holds s.table q
    → (s.entry q).pid ≡ pos pid
    → magnitude (own_key s q) + s.table.size ≤ 2 ^ 31
    → (parent : ℕ) × (with_pid (pos pid) s ≡ some (some parent)) × ((s.entry parent).pid ≡ pos pid)
parent_lem s pid q v (slot, lt, at) e small =
    elim (with_pid_lem pid s v.table
      (subst (λ z. magnitude (ptable_key z) + s.table.size ≤ 2 ^ 31) e small)) [
        | inl (missed, look) ↦
            absurd (true≢false (sym ((==ℤ_iff (s.entry q).pid (pos pid)).1 e) ∙ look slot q lt at))
        | inr (a, found, (good, _)) ↦ (a, found, (==ℤ_iff (s.entry a).pid (pos pid)).0 good)
      ]

-- The process at the head of a list stays the root.
module _ (memory : ℕ → Bool) (depth : ℕ) (s : Processes) (r : ℕ) (l : List ℕ) (kids : ℕ → List ℕ)
    (v : IsProcesses s (r ∷ l) kids) (x : ℕ) (new : Fresh x (r ∷ l)) (alone : IsAlone s.family x)
    (own : (s.lists.object x ≡ x) × (s.family.object x ≡ x)) where
  -- The new process stands behind the root in the list, and before its siblings.
  abbrev grown : (parent : ℕ) → HashTable ℕ → Processes
  grown parent table = record s {
    family = family_add_child parent x s.family;
    lists = list_insert_after r x s.lists;
    table = table;
    process_lock = init_rwlock;
  }

  grown-IsProcesses :
      (parent : ℕ) (table : HashTable ℕ)
      → Stores x s.table table
      → IsProcesses (grown parent table) (r ∷ x ∷ l) (update kids parent (x ∷ kids parent))
  grown-IsProcesses parent table w =
      let (listed, spares) = list_insert_after_lem s.lists [] r l x v.walks.listed new in
      let (family, same) = family_add_child_lem s.family kids parent x v.family alone in
      let objects = λ (q : ℕ). ap (λ (f : ℕ → ℕ). f q) same in
      record {
        walks = record {
          listed = listed;
          start = v.walks.start;
          owned = (
            spares.objects r ∙ v.walks.owned.0,
            (
              spares.objects x ∙ own.0,
              All-map (λ p. s.lists.object p ≡ p) _ l (λ q e. spares.objects q ∙ e) v.walks.owned.1,
            ),
          );
        };
        family = family;
        owned = (
          objects r ∙ v.owned.0,
          (
            objects x ∙ own.1,
            All-map (λ p. s.family.object p ≡ p) _ l (λ q e. objects q ∙ e) v.owned.1,
          ),
        );
        table = w.sound;
        sparse = omega (arith, w.percent, v.sparse);
        stored = (
          w.others r v.stored.0,
          (w.here, All-map (λ p. Holds s.table p) _ l (λ q h. w.others q h) v.stored.1),
        );
        free = refl;
      }

bind_assoc :
    {A B C : Type 0} (o : Option A) (f : A → Option B) (g : B → Option C)
    → (o >>= f >>= g) ≡ (o >>= λ a. f a >>= g)
bind_assoc none f g = refl
bind_assoc (some a) f g = refl

-- `insert_process` where its assertions hold and the lock is free.
insert_process-eq :
    (memory : ℕ → Bool) (depth pid : ℕ) (s : Processes) (r x parent : ℕ)
    → s.root ≡ some r
    → 0 < pid
    → s.process_lock ≡ init_rwlock
    → with_pid (pos pid) s ≡ some (some parent)
    → insert_process memory depth (pos pid) x s ≡ (
        insert (λ p. ptable_key (s.entry p).pid) memory depth x s.table >>= λ o. some (
          (s.entry x).pid,
          record s {
            family = family_add_child parent x s.family;
            lists = list_insert_after r x s.lists;
            table = o.1;
            process_lock = init_rwlock;
          },
        ))
unfolding insert_process
insert_process-eq memory depth pid s r x parent rooted positive free found =
    ap (λ (o : Option ℕ). insert_at memory depth (pos pid) x s o) rooted ∙ below
  where
    valid : (pos pid ==ℤ pos 0) ≡ false
    valid = ground (arith, positive)

    below : insert_at memory depth (pos pid) x s (some r) ≡ (
        insert (λ p. ptable_key (s.entry p).pid) memory depth x s.table >>= λ o. some (
          (s.entry x).pid,
          record s {
            family = family_add_child parent x s.family;
            lists = list_insert_after r x s.lists;
            table = o.1;
            process_lock = init_rwlock;
          },
        ))
    below = rw valid (
        rw (try_write_free s.process_lock free) (
          rw found
            (bind_assoc (insert (λ p. ptable_key (s.entry p).pid) memory depth x s.table) _ _)))

-- `insert_process` of a new process below one with the number `pid`, into a list with a root and a
-- table that is not full, returns the new number, if the keys of all these processes stay below 2 ^ 31
-- by twice the size of the table. The new process is then behind the root in the list, in the table,
-- which holds one pointer more, and the first child of a process with that number; the other processes
-- of the list are in their places, and no name or number changes.
pub insert_process_lem :
    (memory : ℕ → Bool) (depth pid : ℕ) (s : Processes) (r : ℕ) (l : List ℕ) (kids : ℕ → List ℕ)
    (x q : ℕ)
    → IsProcesses s (r ∷ l) kids
    → Fresh x (r ∷ l)
    → IsAlone s.family x
    → (s.lists.object x ≡ x) × (s.family.object x ≡ x)
    → Holds s.table q
    → (s.entry q).pid ≡ pos pid
    → 0 < pid
    → s.table.total < s.table.size
    → magnitude (own_key s x) + s.table.size * 2 ≤ 2 ^ 31
    → KeysFit (own_key s) (s.table.size * 2) s.table
    → Returns (insert_process memory (suc (suc depth)) (pos pid) x s) (λ out.
      (out.0 ≡ (s.entry x).pid)
      × ((parent : ℕ) × ((s.entry parent).pid ≡ pos pid)
          × IsProcesses out.1 (r ∷ x ∷ l) (update kids parent (x ∷ kids parent)))
      × (out.1.table.total ≡ suc s.table.total)
      × (out.1.entry ≡ s.entry))
insert_process_lem memory depth pid s r l kids x q v new alone own held numbered positive room small
      fit =
    let (parent, found, e) = parent_lem s pid q v.table held numbered (omega (arith, fit q held)) in
    let w = insert_total (own_key s) memory depth x s.table v.table room small fit in
    rw
      (insert_process-eq memory (suc (suc depth)) pid s r x parent v.walks.start positive v.free
        found)
      (Returns-bind (insert (λ p. ptable_key (s.entry p).pid) memory (suc (suc depth)) x s.table)
        (λ o. some ((s.entry x).pid, grown memory depth s r l kids v x new alone own parent o.1))
        (Inserted x s.table) _
        (λ o h. (
          refl,
          (parent, e, grown-IsProcesses memory depth s r l kids v x new alone own parent o.1 h.1),
          h.1.total,
          refl,
        ))
        w)
