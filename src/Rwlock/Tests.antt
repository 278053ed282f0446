-- ===== src/Rwlock/Tests.antt =====
-- Two threads and the lock.
use spoon_microkernel.Prelude.{◌≤◌, ◌≡◌, ◌≢◌, ◌⊎◌, inl, refl, [], ◌∷◌, arith}
use spoon_microkernel.Rwlock.{
  System, outside, reading, writing, phase, try_write, Step, write_enters, write_waits, Reached,
  begin, then_step,
}
use spoon_microkernel.Rwlock.Safety.{IsSafe, Reached-exclusive}
use spoon_microkernel.Rwlock.Waiting.{Step-waiting}

-- The first of two threads has the lock to write.
abbrev one_writes : System
one_writes = record {
  rw = record { num_readers = 0; num_writers = 1; write_request = 0 };
  phases = writing ∷ outside ∷ [];
}

-- The first reads, and the second has asked to write.
abbrev one_reads : System
one_reads = record {
  rw = record { num_readers = 1; num_writers = 0; write_request = 1 };
  phases = reading ∷ outside ∷ [];
}

one_writes-Reached : Reached 2 one_writes
unfolding try_write
one_writes-Reached = then_step 0 begin (omega arith) (write_enters refl refl)

Reached-exclusive_example : (phase one_writes 1 ≢ reading) × (phase one_writes 1 ≢ writing)
Reached-exclusive_example =
    Reached-exclusive 2 one_writes 0 1 (omega arith) one_writes-Reached (omega arith) refl

one_reads-IsSafe : IsSafe one_reads
one_reads-IsSafe = record {
  readers = refl;
  writers = refl;
  one = omega arith;
  apart = inl refl;
  few = omega arith;
}

waits : Step one_reads 1 one_reads
unfolding try_write
waits = write_waits refl refl

Step-waiting_example :
    (phase one_reads 1 ≡ writing)
    ⊎ ((one_reads.rw.write_request ≡ 1) × (one_reads.rw.num_readers ≤ 1))
Step-waiting_example = Step-waiting one_reads-IsSafe (omega arith) refl waits
