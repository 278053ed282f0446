-- ===== src/Rwlock/Waiting.antt =====
-- A writer that waits is not overtaken by new readers.
use mathlib.Core.Bool.{true≢false}
use spoon_microkernel.Prelude.{
  ℕ, ◌<◌, ◌≤◌, ◌≡◌, ◌⊎◌, inl, inr, refl, sym, ◌∙◌, false, length, arith,
}
use spoon_microkernel.Rwlock.{
  Rwlock, try_read, phase, writing, System, Step, write_enters, write_waits, read_enters,
  read_waits, release_begins, release_ends, release_reads,
}
use spoon_microkernel.Rwlock.Safety.{
  IsSafe, write_granted, write_refused, read_refused, counted_reader, room,
}

-- A request blocks new readers.
no_read : (rw : Rwlock) → rw.write_request ≡ 1 → (try_read rw).0 ≡ false
unfolding try_read
no_read rw asked = ground arith

-- While a writer asks for the lock, a step either is one of a thread that has the lock to write, or
-- leaves the request in place and lets no reader in.
pub Step-waiting :
    {s t : System} {i : ℕ}
    → IsSafe s
    → i < length s.phases
    → s.rw.write_request ≡ 1
    → Step s i t
    → (phase s i ≡ writing) ⊎ ((t.rw.write_request ≡ 1) × (t.rw.num_readers ≤ s.rw.num_readers))
Step-waiting {s} v lt asked (write_enters at g) =
    let (_, _, e) = write_granted s.rw g in inr (rw e (asked, omega arith))
Step-waiting {s} v lt asked (write_waits at g) = inr (rw (write_refused s.rw g) (refl, omega arith))
Step-waiting {s} v lt asked (read_enters at g) = absurd (true≢false (sym g ∙ no_read s.rw asked))
Step-waiting {s} v lt asked (read_waits at g) = inr (rw (read_refused s.rw g) (asked, omega arith))
Step-waiting {s} v lt asked (release_begins (inr at) g) = inl at
Step-waiting {s} v lt asked (release_begins (inl at) g) =
    absurd (ground (arith, counted_reader v lt at, v.apart))
Step-waiting {s} v lt asked (release_ends at) = inr (asked, omega arith)
Step-waiting {s} v lt asked (release_reads (inr at) g) = inl at
Step-waiting {s} v lt asked (release_reads (inl at) g) =
    inr (asked, omega (arith, counted_reader v lt at, v.few, v.readers, room v lt))
