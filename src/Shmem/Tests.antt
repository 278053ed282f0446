-- ===== src/Shmem/Tests.antt =====
-- Tests of shared memory: a region of two pages with the id 0, which process 7 owns.
use spoon_microkernel.Prelude.{
  ℕ, ◌≡◌, refl, true, Option, none, some, [], ◌∷◌, Returns, ◌>>=◌, arith,
}
use spoon_microkernel.Prelude.Int.{ℤ, pos}
use spoon_microkernel.Rwlock.{init_rwlock, try_read, try_write}
use spoon_microkernel.Links.{list_init}
use spoon_microkernel.Htable.{retrieve}
use spoon_microkernel.Processes.Find.{Walks}
use spoon_microkernel.Shmem.{Shmem, SharedRegion, with_id}
use spoon_microkernel.Shmem.Share.{
  refused, shmem_revoke, mapped, new_info, find_info, push_info, shmem_grant, shmem_request,
  shmem_release,
}
use spoon_microkernel.Physmem.{Memory}
use spoon_microkernel.Shmem.Revoke.{shmem_request-shmem_revoke}
use spoon_microkernel.Shmem.Access.{shmem_request-shmem_grant}

abbrev two_pages : SharedRegion
two_pages = record {
  id = pos 0;
  name = 97 ∷ 0 ∷ [];
  lock = init_rwlock;
  pid = pos 7;
  flags = 1;
  internal = 1;
  physical_location = 4096;
  physical_pages = pos 2;
  list = none;
}

abbrev one_region : Shmem
one_region = record {
  region = λ _. two_pages;
  info = λ _. new_info (pos 1) 0;
  lists = record { object = λ p. p; prev = λ _. none; next = λ _. none };
  table = record { total = 1; size = 2; percent = 80; table = some 1 ∷ none ∷ [] };
  next_id = pos 0;
  shmem_lock = init_rwlock;
}

one_found : with_id (pos 0) one_region ≡ some (some 1)
unfolding retrieve
one_found = refl

shmem_request-shmem_grant_example :
    Returns (shmem_grant 0 (some 3) (pos 7) (pos 0) (pos 9) 9 one_region) (λ g.
      (g.0 ≡ pos 0)
      × Walks g.1.lists (g.1.region 1).list (3 ∷ [])
      × Returns (shmem_request 1 none 8192 (pos 9) (pos 0) g.1) (λ r. r.0 ≡ mapped 8192 (pos 2) 1))
shmem_request-shmem_grant_example =
    shmem_request-shmem_grant 0 0 3 (pos 0) (pos 9) 9 8192 none one_region 1 [] refl refl one_found
      (record { listed = (tt, tt); start = refl; owned = tt }) (omega arith) tt refl (omega arith)

abbrev early : Option ((ℤ × Option (ℕ × ℤ)) × Shmem)
early = do
  (_, s1) ← shmem_grant 0 (some 3) (pos 7) (pos 0) (pos 9) 1 one_region
  (_, s2) ← shmem_release 1 (pos 9) (pos 0) s1
  (_, s3) ← shmem_request 1 none 8192 (pos 9) (pos 0) s2
  shmem_release 1 (pos 9) (pos 0) s3

abbrev in_order : Option ((ℤ × Option (ℕ × ℤ)) × Shmem)
in_order = do
  (_, s1) ← shmem_grant 0 (some 3) (pos 7) (pos 0) (pos 9) 1 one_region
  (_, s2) ← shmem_request 1 none 8192 (pos 9) (pos 0) s1
  shmem_release 1 (pos 9) (pos 0) s2

-- The last release unmaps the pages.
unmapped : Returns in_order (λ r. r.0 ≡ (pos 0, some (8192, pos 2)))
unfolding shmem_grant shmem_request shmem_release find_info push_info retrieve try_read try_write
    list_init
unmapped = refl

-- Where a release came before the request, the count is -1 and the pages stay mapped.
left_mapped : Returns early (λ r. r.0 ≡ (pos 0, none))
unfolding shmem_grant shmem_request shmem_release find_info push_info retrieve try_read try_write
    list_init
left_mapped = refl

-- Process 9 has access, and has not asked for the region.
abbrev one_user : Shmem
one_user = record one_region {
  region = λ _. record two_pages { list = some 3 };
  info = λ _. new_info (pos 9) 1;
}

abbrev no_memory : Memory
no_memory = record { used = λ _. true; total_pages = 0; free_pages = pos 0; last_page = 0 }

user_found : with_id (pos 0) one_user ≡ some (some 1)
unfolding retrieve
user_found = refl

shmem_request-shmem_revoke_example :
    Returns (shmem_revoke 1 (pos 7) (pos 9) (pos 0) no_memory one_user) (λ r.
      (r.0 ≡ (pos 0, no_memory))
      × Walks r.1.lists (r.1.region 1).list []
      × Returns (shmem_request 0 none 8192 (pos 9) (pos 0) r.1) (λ q. q.0 ≡ refused))
shmem_request-shmem_revoke_example =
    shmem_request-shmem_revoke 1 0 none 8192 (pos 0) (pos 9) no_memory one_user 1 3 [] [] refl refl
      user_found
      (record { listed = ((tt, tt), (refl, refl, tt)); start = refl; owned = (refl, tt) })
      (omega arith) (omega arith) refl refl refl refl
