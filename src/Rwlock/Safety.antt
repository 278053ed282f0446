-- ===== src/Rwlock/Safety.antt =====
-- The lock keeps writers from each other and from readers, whatever the order of the steps.
use spoon_microkernel.Prelude.{
  ℕ, ◌+◌, ◌<◌, ◌≤◌, ◌≡◌, ◌≢◌, ◌⊎◌, inl, inr, refl, sym, true, false, length, length-set,
  length-replicate, add32, word_max, arith,
}
use spoon_microkernel.Rwlock.{
  Rwlock, try_write, try_read, has_writer, clear_request, clear_writer, drop_reader, Phase, outside,
  reading, writing, leaving, is_reading, is_writing, System, phase, moved, Step, write_enters,
  write_waits, read_enters, read_waits, release_begins, release_ends, release_reads, Reached, begin,
  then_step,
}
use spoon_microkernel.Rwlock.Counts.{
  mark, count, count-set, count-replicate, count_one, count_two, count-le,
}

-- The counters count the threads that have the lock: at most one to write, and none to read beside it.
pub record IsSafe (s : System) : Type 0 where
  pub readers : s.rw.num_readers ≡ count is_reading s.phases
  pub writers : s.rw.num_writers ≡ count is_writing s.phases
  pub one : s.rw.num_writers ≤ 1
  pub apart : (s.rw.num_writers ≡ 0) ⊎ (s.rw.num_readers ≡ 0)
  pub few : length s.phases + 1 < word_max

moved_lem :
    (s : System) (rw : Rwlock) (i : ℕ) (p : Phase)
    → i < length s.phases
    → length s.phases + 1 < word_max
    → rw.num_readers + mark (is_reading (phase s i))
      ≡ count is_reading s.phases + mark (is_reading p)
    → rw.num_writers + mark (is_writing (phase s i))
      ≡ count is_writing s.phases + mark (is_writing p)
    → rw.num_writers ≤ 1
    → (rw.num_writers ≡ 0) ⊎ (rw.num_readers ≡ 0)
    → IsSafe (moved s rw i p)
moved_lem s rw i p lt few r w one apart = record {
  readers = omega (arith, count-set is_reading s.phases i p lt);
  writers = omega (arith, count-set is_writing s.phases i p lt);
  one = one;
  apart = apart;
  few = omega (arith, length-set s.phases i p);
}

pub write_granted :
    (rw : Rwlock)
    → (try_write rw).0 ≡ true
    → (rw.num_readers ≡ 0)
      × (rw.num_writers ≡ 0)
      × ((try_write rw).1 ≡ record rw { num_writers = 1 })
unfolding try_write
write_granted rw t = ground arith

pub write_refused :
    (rw : Rwlock) → (try_write rw).0 ≡ false → (try_write rw).1 ≡ record rw { write_request = 1 }
unfolding try_write
write_refused rw t = ground arith

read_granted :
    (rw : Rwlock)
    → (try_read rw).0 ≡ true
    → (rw.num_writers ≡ 0) × ((try_read rw).1 ≡ record rw { num_readers = add32 rw.num_readers 1 })
unfolding try_read
read_granted rw t = ground arith

pub read_refused : (rw : Rwlock) → (try_read rw).0 ≡ false → (try_read rw).1 ≡ rw
unfolding try_read
read_refused rw t = ground arith

module _ {s : System} {i : ℕ} (v : IsSafe s) (lt : i < length s.phases) where
  open v use {readers, writers, one, apart, few}

  pub room : s.rw.num_readers + 1 < word_max
  room = omega (arith, count-le is_reading s.phases)

  write_enters-IsSafe :
      phase s i ≡ outside
      → (try_write s.rw).0 ≡ true
      → IsSafe (moved s (try_write s.rw).1 i writing)
  write_enters-IsSafe at t =
      let (none_read, none_write, e) = write_granted s.rw t in
      rw e (
        moved_lem s (record s.rw { num_writers = 1 }) i writing lt few (rw at (omega arith))
          (rw at (omega arith)) (omega arith) (inr none_read))

  read_enters-IsSafe :
      phase s i ≡ outside → (try_read s.rw).0 ≡ true → IsSafe (moved s (try_read s.rw).1 i reading)
  read_enters-IsSafe at t =
      let (none_write, e) = read_granted s.rw t in
      rw e (
        moved_lem s (record s.rw { num_readers = add32 s.rw.num_readers 1 }) i reading lt few
          (rw at (omega (arith, room))) (rw at (omega arith)) one (inl none_write))

  write_waits-IsSafe : (try_write s.rw).0 ≡ false → IsSafe (record s { rw = (try_write s.rw).1 })
  write_waits-IsSafe t =
      rw (write_refused s.rw t)
        (record { readers = readers; writers = writers; one = one; apart = apart; few = few })

  read_waits-IsSafe : (try_read s.rw).0 ≡ false → IsSafe (record s { rw = (try_read s.rw).1 })
  read_waits-IsSafe t = rw (read_refused s.rw t) v

  -- A thread that has the lock is counted.
  pub counted_reader : phase s i ≡ reading → 1 ≤ s.rw.num_readers
  counted_reader at = omega (arith, count_one is_reading s.phases i refl (rw at refl))

  counted_writer : phase s i ≡ writing → 1 ≤ s.rw.num_writers
  counted_writer at = omega (arith, count_one is_writing s.phases i refl (rw at refl))

  release_begins-IsSafe :
      (phase s i ≡ reading) ⊎ (phase s i ≡ writing)
      → has_writer s.rw ≡ true
      → IsSafe (moved s (clear_request s.rw) i leaving)
  release_begins-IsSafe (inl at) t = absurd (ground (arith, counted_reader at))
  release_begins-IsSafe (inr at) t =
      moved_lem s (clear_request s.rw) i leaving lt few (rw at (omega arith)) (rw at (omega arith))
        one apart

  release_ends-IsSafe : phase s i ≡ leaving → IsSafe (moved s (clear_writer s.rw) i outside)
  release_ends-IsSafe at =
      let here : 1 ≤ s.rw.num_writers =
        omega (arith, count_one is_writing s.phases i refl (rw at refl)) in
      moved_lem s (clear_writer s.rw) i outside lt few (rw at (omega arith)) (rw at (omega arith))
        (omega arith) (inl refl)

  release_reads-IsSafe :
      (phase s i ≡ reading) ⊎ (phase s i ≡ writing)
      → has_writer s.rw ≡ false
      → IsSafe (moved s (drop_reader s.rw) i outside)
  release_reads-IsSafe (inr at) t = absurd (ground (arith, counted_writer at))
  release_reads-IsSafe (inl at) t =
      let here = counted_reader at in
      moved_lem s (drop_reader s.rw) i outside lt few (rw at (omega (arith, room)))
        (rw at (omega arith)) one (inl (ground arith))

  -- Every step of a thread keeps the counters right.
  pub IsSafe-Step : {t : System} → Step s i t → IsSafe t
  IsSafe-Step (write_enters at g) = write_enters-IsSafe at g
  IsSafe-Step (write_waits at g) = write_waits-IsSafe g
  IsSafe-Step (read_enters at g) = read_enters-IsSafe at g
  IsSafe-Step (read_waits at g) = read_waits-IsSafe g
  IsSafe-Step (release_begins at g) = release_begins-IsSafe at g
  IsSafe-Step (release_ends at) = release_ends-IsSafe at
  IsSafe-Step (release_reads at g) = release_reads-IsSafe at g

Reached-IsSafe : {n : ℕ} {s : System} → n + 1 < word_max → Reached n s → IsSafe s
Reached-IsSafe {n} few begin = record {
  readers = sym (count-replicate is_reading n refl);
  writers = sym (count-replicate is_writing n refl);
  one = omega arith;
  apart = inl refl;
  few = omega (arith, length-replicate n outside);
}
Reached-IsSafe few (then_step i r lt step) = IsSafe-Step (Reached-IsSafe few r) lt step

-- Among at most 2 ^ 32 - 2 threads, in whatever order they run, while a thread writes no other
-- thread reads or writes.
pub Reached-exclusive :
    (n : ℕ) (s : System) (i j : ℕ)
    → n + 1 < word_max
    → Reached n s
    → i ≢ j
    → phase s i ≡ writing
    → (phase s j ≢ reading) × (phase s j ≢ writing)
Reached-exclusive n s i j few r ne at =
    let v = Reached-IsSafe few r in
    let here : 1 ≤ s.rw.num_writers =
      omega (arith, v.writers, count_one is_writing s.phases i refl (rw at refl)) in
    (
      (λ other. absurd (
          omega (arith, v.apart, v.readers, count_one is_reading s.phases j refl (rw other refl)))),
      (λ other. absurd (
          omega (
            arith,
            v.one,
            v.writers,
            count_two is_writing s.phases i j refl ne (rw at refl) (rw other refl),
          ))),
    )
