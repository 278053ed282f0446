-- ===== src/Shmem/Create.antt =====
-- `shmem_create_direct` of kernel/src/shmem.c: a new region and its id.
use spoon_microkernel.Prelude.{ℕ, suc, ◌≤◌, ◌≡◌, some, update}
use spoon_microkernel.Prelude.Int.{ℤ, pos}
use spoon_microkernel.Rwlock.{init_rwlock}
use spoon_microkernel.Htable.{HashTable}
use spoon_microkernel.Htable.Stores.{Holds, IsSound}
use spoon_microkernel.Processes.Locks.{with_writer}
use spoon_microkernel.Shmem.{Shmem, SharedRegion, shmem_key, with_id}
use spoon_microkernel.Shmem.Ids.{IsFreeId}

-- The key of the region at an address.
abbrev pub region_key : Shmem → ℕ → ℤ
region_key s p = shmem_key (s.region p).id

module _ (n a : ℕ) (new : SharedRegion) (s : Shmem) where
  -- The table and the lock when the search begins.
  abbrev begun : Shmem
  begun = record s { shmem_lock = with_writer; region = update s.region a new }

  abbrev finished : (m : ℕ) → HashTable ℕ → Shmem
  finished m table = record s {
    region = update (update s.region a new) a (record (update s.region a new a) { id = pos m });
    table = table;
    next_id = pos (suc m);
    shmem_lock = init_rwlock;
  }

  -- What a new region with the id `m` is.
  abbrev pub Added : ℤ × Shmem → Type 0
  Added r =
      (m : ℕ) × (r.0 ≡ pos m)
      × (n ≤ m)
      × IsFreeId (pos m) s
      × IsSound r.1.table
      × Holds r.1.table a
      × (r.1.region a ≡ record new { id = pos m })
      × ((b : ℕ) × (with_id (pos m) r.1 ≡ some (some b)) × ((r.1.region b).id ≡ pos m))
      × ((p : ℕ) → Holds s.table p → Holds r.1.table p × (r.1.region p ≡ s.region p))
      × (r.1.next_id ≡ pos (suc m))
      × (r.1.shmem_lock ≡ init_rwlock)
