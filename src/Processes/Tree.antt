-- ===== src/Processes/Tree.antt =====
-- The list, the tree and the table of processes together.
use spoon_microkernel.Prelude.{ℕ, ◌≤◌, ◌≡◌, List, All}
use spoon_microkernel.Prelude.Int.{ℤ}
use spoon_microkernel.Rwlock.{init_rwlock}
use spoon_microkernel.Htable.Stores.{Holds, IsSound}
use spoon_microkernel.Family.Kids.{IsFamily}
use spoon_microkernel.Processes.{Processes, ptable_key}
use spoon_microkernel.Processes.Find.{Walks}

-- The processes `l` are in the list, in this order, and in the table, which is to be filled by 50 to 80
-- percent; `kids` are the children of each, and the lock of the list is free.
pub record IsProcesses (s : Processes) (l : List ℕ) (kids : ℕ → List ℕ) : Type 0 where
  pub walks : Walks s.lists s.root l
  pub family : IsFamily s.family kids
  pub owned : All (λ p. s.family.object p ≡ p) l
  pub table : IsSound s.table
  pub sparse : s.table.percent ≤ 80
  pub stored : All (λ p. Holds s.table p) l
  pub free : s.process_lock ≡ init_rwlock

-- The key of the process at an address.
abbrev pub own_key : Processes → ℕ → ℤ
own_key s p = ptable_key (s.entry p).pid
