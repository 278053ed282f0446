-- ===== src/Processes/Tests.antt =====
-- Tests of processes: three of them, the second a child of the first and the third of the second.
use native.Mathlib.Decide.{ℕ_discrete}
use mathlib.Core.Path.{subst}
use mathlib.Core.Option.{some-injective}
use mathlib.Core.List.{reverse}
use spoon_microkernel.Prelude.{
  ℕ, zero, suc, ◌-◌, get_or, sym, ◌⊎◌, inl, inr, ◌^◌, ◌≤◌, ◌≡◌, ◌≢◌, refl, true, false, none, some,
  List, [], ◌∷◌, ◌++◌, ◌==◌, ==_iff, if◌then◌else◌, update, Fresh, Returns, arith,
}
use spoon_microkernel.Prelude.Int.{pos, negsuc}
use spoon_microkernel.Strings.{compare_from}
use spoon_microkernel.Rwlock.{init_rwlock, try_read, try_write}
use spoon_microkernel.Htable.{HashTable, remove, retrieve}
use spoon_microkernel.Htable.Stores.{IsSound, Holds, KeysFit}
use spoon_microkernel.Links.{Lists}
use spoon_microkernel.Family.{Family, family_adopt}
use spoon_microkernel.Family.Leave.{left_kids}
use spoon_microkernel.Family.Adopt.{family_adopt_lem}
use spoon_microkernel.Htable.Erase.{Drops, Compares, remove_lem}
use spoon_microkernel.Family.Kids.{Kids, IsFamily, IsAlone}
use spoon_microkernel.Processes.{
  Processes, ProcessEntry, with_pid, next_pid, find_process, insert_process, remove_process,
  checkout_process,
}
use spoon_microkernel.Processes.Pids.{IsUnused, next_pid_lem}
use spoon_microkernel.Processes.Find.{first_pid, find_process_lem}
use spoon_microkernel.Processes.Checkout.{taken, checkout_process-excludes}
use spoon_microkernel.Processes.Tree.{IsProcesses, own_key}
use spoon_microkernel.Processes.Insert.{insert_process_lem}
use spoon_microkernel.Processes.Remove.{remove_process_lem}
use spoon_microkernel.Threads.Tree.{ThreadTree, unlink_thread}
use spoon_microkernel.Threads.Tree.Unlink.{IsTree, unlink_thread_lem}

-- The process at each address has the address as its number; the third is called "gc".
abbrev entries : ℕ → ProcessEntry
entries p = record { name = if p == 3 then 103 ∷ 99 ∷ [] else 115 ∷ 109 ∷ 107 ∷ []; pid = pos p }

abbrev three_lists : Lists
three_lists = record {
  object = λ p. p;
  prev = update (update (λ _. none) 2 (some 1)) 3 (some 2);
  next = update (update (λ _. none) 1 (some 2)) 2 (some 3);
}

abbrev three_family : Family
three_family = record {
  object = λ p. p;
  parent = update (update (λ _. none) 2 (some 1)) 3 (some 2);
  child = update (update (λ _. none) 1 (some 2)) 2 (some 3);
  sibling_prev = λ _. none;
  sibling_next = λ _. none;
}

abbrev three_kids : ℕ → List ℕ
three_kids = update (update (λ _. []) 1 (2 ∷ [])) 2 (3 ∷ [])

abbrev three_table : HashTable ℕ
three_table = record {
  total = 3;
  size = 8;
  percent = 75;
  table = none ∷ some 3 ∷ none ∷ none ∷ some 1 ∷ some 2 ∷ none ∷ none ∷ [];
}

abbrev three : Processes
three = record {
  entry = entries;
  lists = three_lists;
  family = three_family;
  locks = λ _. init_rwlock;
  table = three_table;
  root = some 1;
  process_lock = init_rwlock;
  last_pid = pos 2;
}

no-Kids : (p : ℕ) → 1 ≢ p → 2 ≢ p → Kids three_family p []
no-Kids p a b = record { eldest = ground (arith, a, b); linked = tt; distinct = tt; parents = tt }

childless : (p : ℕ) → 1 ≢ p → 2 ≢ p → [] ≡ three_kids p
childless p a b = ground (arith, a, b)

three_family-IsFamily : IsFamily three_family three_kids
three_family-IsFamily p = elim (ℕ_discrete 1 p) [
  | yes first ↦
      subst (λ q. Kids three_family q (three_kids q)) first
        (record {
          eldest = refl;
          linked = (refl, refl, tt);
          distinct = (tt, tt);
          parents = (refl, tt);
        })
  | no a ↦ elim (ℕ_discrete 2 p) [
    | yes second ↦
        subst (λ q. Kids three_family q (three_kids q)) second
          (record {
            eldest = refl;
            linked = (refl, refl, tt);
            distinct = (tt, tt);
            parents = (refl, tt);
          })
    | no b ↦ subst (λ l. Kids three_family p l) (childless p a b) (no-Kids p a b)
  ]
]

three_table-IsSound : IsSound three_table
three_table-IsSound = record {
  table = record { slots = omega arith; counted = refl };
  sized = refl;
  half = omega arith;
}

-- The three pointers of the table.
three_held : (p : ℕ) → Holds three_table p → (p ≡ 3) ⊎ (p ≡ 1) ⊎ (p ≡ 2)
three_held p (slot, lt, e) = three_slots slot e
  where
    three_slots :
        (slot : ℕ) → get_or three_table.table slot none ≡ some p → (p ≡ 3) ⊎ (p ≡ 1) ⊎ (p ≡ 2)
    three_slots (suc zero) e = inl (sym (some-injective 3 p e))
    three_slots (suc (suc (suc (suc zero)))) e = inr (inl (sym (some-injective 1 p e)))
    three_slots (suc (suc (suc (suc (suc zero))))) e = inr (inr (sym (some-injective 2 p e)))
    three_slots zero e = cc
    three_slots (suc (suc zero)) e = cc
    three_slots (suc (suc (suc zero))) e = cc
    three_slots (suc (suc (suc (suc (suc (suc zero)))))) e = cc
    three_slots (suc (suc (suc (suc (suc (suc (suc zero))))))) e = cc
    three_slots (suc (suc (suc (suc (suc (suc (suc (suc slot)))))))) e = cc

three_keys : KeysFit pos 8 three_table
three_keys p held = elim (three_held p held) [
  | inl e ↦ omega (arith, e)
  | inr (inl e) ↦ omega (arith, e)
  | inr (inr e) ↦ omega (arith, e)
]

three_fit : (size : ℕ) → size ≤ 16 → KeysFit (own_key three) size three_table
three_fit size small p held = elim (three_held p held) [
  | inl e ↦ rw e (omega arith)
  | inr (inl e) ↦ rw e (omega arith)
  | inr (inr e) ↦ rw e (omega arith)
]

three-IsProcesses : IsProcesses three (1 ∷ 2 ∷ 3 ∷ []) three_kids
three-IsProcesses = record {
  walks = record {
    listed = (
      ((λ e. omega arith, (λ e. omega arith, tt)), ((λ e. omega arith, tt), (tt, tt))),
      (refl, refl, (refl, refl, (refl, refl, tt))),
    );
    start = refl;
    owned = (refl, (refl, (refl, tt)));
  };
  family = three_family-IsFamily;
  owned = (refl, (refl, (refl, tt)));
  table = three_table-IsSound;
  sparse = omega arith;
  stored = ((4, omega arith, refl), ((5, omega arith, refl), ((1, omega arith, refl), tt)));
  free = refl;
}

-- A fourth process, that is in no list yet.
four-IsAlone : IsAlone three_family 4
four-IsAlone = record { parent = refl; sibling_prev = refl; sibling_next = refl }

four_new : Fresh 4 (1 ∷ 2 ∷ 3 ∷ [])
four_new = (λ e. omega arith, (λ e. omega arith, (λ e. omega arith, tt)))

-- Numbers 2 and 3 are in use.
fourth : next_pid 4 three ≡ some (pos 4, record three { last_pid = pos 5 })
unfolding next_pid retrieve
fourth = refl

-- After 2 ^ 31 - 1 the counter is negative, and the next number is -2 ^ 31.
last_number :
    next_pid 4 (record three { last_pid = pos (2 ^ 31 - 1) })
    ≡ some (pos (2 ^ 31 - 1), record three { last_pid = negsuc (2 ^ 31 - 1) })
unfolding next_pid retrieve
last_number = refl

negative_number :
    next_pid 4 (record three { last_pid = negsuc (2 ^ 31 - 1) })
    ≡ some (negsuc (2 ^ 31 - 1), record three { last_pid = negsuc (2 ^ 31 - 2) })
unfolding next_pid retrieve
negative_number = refl

named : find_process 3 (103 ∷ 99 ∷ []) three ≡ some (pos 3, three)
unfolding find_process compare_from try_read
named = refl

next_pid_lem_example : Returns (next_pid 4 three) (λ r.
    (m : ℕ) × (r ≡ (pos m, record three { last_pid = pos (suc m) }))
    × (2 ≤ m)
    × IsUnused (pos m) three)
next_pid_lem_example =
    next_pid_lem 4 2 three three_table-IsSound.table refl (omega arith) (omega arith)

find_process_lem_example :
    find_process 3 (103 ∷ 99 ∷ []) three
    ≡ some (first_pid entries (103 ∷ 99 ∷ []) (1 ∷ 2 ∷ 3 ∷ []), three)
find_process_lem_example =
    find_process_lem 3 (103 ∷ 99 ∷ []) three (1 ∷ 2 ∷ 3 ∷ []) three-IsProcesses.walks refl
      (omega arith)

second_found : with_pid (pos 2) three ≡ some (some 2)
unfolding retrieve
second_found = refl

second_taken : checkout_process (pos 2) false three ≡ some (some 2, taken false 2 three)
unfolding checkout_process retrieve try_read try_write
second_taken = refl

checkout_process-excludes_example :
    (checkout_process (pos 2) true (taken false 2 three) ≡ none)
    × (insert_process (λ _. true) 2 (pos 1) 4 (taken false 2 three) ≡ none)
    × (remove_process (λ _. true) 2 1 4 (taken false 2 three) ≡ none)
checkout_process-excludes_example =
    checkout_process-excludes (pos 2) three (taken false 2 three) 2 refl refl second_found
      second_taken (pos 2) (pos 1) true (λ _. true) 2 1 1 4 second_found refl

insert_process_lem_example : Returns (insert_process (λ _. true) 2 (pos 2) 4 three) (λ out.
    (out.0 ≡ pos 4)
    × ((parent : ℕ) × ((entries parent).pid ≡ pos 2)
        × IsProcesses out.1 (1 ∷ 4 ∷ 2 ∷ 3 ∷ []) (update three_kids parent (4 ∷ three_kids parent)))
    × (out.1.table.total ≡ 4)
    × (out.1.entry ≡ entries))
insert_process_lem_example =
    insert_process_lem (λ _. true) 0 2 three 1 (2 ∷ 3 ∷ []) three_kids 4 2 three-IsProcesses
      four_new four-IsAlone (refl, refl) (5, omega arith, refl) refl (omega arith) (omega arith)
      (omega arith) (three_fit 16 (omega arith))

remove_process_lem_example : Returns (remove_process (λ _. true) 1 1 2 three) (λ s'.
    IsProcesses s' (1 ∷ 3 ∷ []) (left_kids three_kids 1 2 [] [])
    × IsAlone s'.family 2
    × (suc s'.table.total ≡ 3)
    × (s'.entry ≡ entries))
remove_process_lem_example =
    remove_process_lem (λ _. true) 0 1 three 1 [] (3 ∷ []) 2 1 [] [] three_kids three-IsProcesses
      refl (λ e. omega arith) refl (omega arith) (three_fit 8 (omega arith))

family_adopt_lem_example : Returns (family_adopt 1 1 2 three_family) (λ f'.
    IsFamily f' (update (update three_kids 1 (reverse (three_kids 2) ++ three_kids 1)) 2 [])
    × (f'.object ≡ three_family.object))
family_adopt_lem_example =
    family_adopt_lem three_family three_kids 1 1 2 three_family-IsFamily (λ e. omega arith)
      (omega arith)

by_address : Compares ◌==◌
by_address = record { equal = λ a. (==_iff a a).1 refl; only = λ a b h. (==_iff a b).0 h }

remove_lem_example :
    Returns
      (remove pos ◌==◌ (λ _. false) 1 2 three_table)
      (λ r. (r.0 ≡ pos 0) × Drops 2 three_table r.1)
remove_lem_example =
    remove_lem pos ◌==◌ (λ _. false) 0 2 three_table by_address three_table-IsSound (omega arith)
      (5, omega arith, refl) three_keys

-- Threads with the same list and tree.
abbrev three_threads : ThreadTree
three_threads = record { lists = three_lists; family = three_family; threads = some 1 }

three_threads-IsTree : IsTree three_threads (1 ∷ 2 ∷ 3 ∷ []) three_kids
three_threads-IsTree = record {
  list = three-IsProcesses.walks.listed;
  family = three_family-IsFamily;
}

unlink_thread_lem_example :
    Returns
      (unlink_thread 1 2 three_threads)
      (λ s'. IsTree s' (1 ∷ 3 ∷ []) (left_kids three_kids 1 2 [] []) × (s'.threads ≡ some 1))
unlink_thread_lem_example =
    unlink_thread_lem 1 three_threads (1 ∷ []) (3 ∷ []) three_kids 1 2 [] [] three_threads-IsTree
      refl (λ e. omega arith) refl refl (omega arith)
