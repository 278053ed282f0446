-- ===== src/Processes/Locks.antt =====
-- The locks of the process list and of the processes, taken and given back by one thread.
use spoon_microkernel.Prelude.{◌≡◌, refl, true}
use spoon_microkernel.Rwlock.{Rwlock, init_rwlock, try_read, try_write}

-- A lock with one reader, and one with a writer.
abbrev pub with_reader : Rwlock
with_reader = record init_rwlock { num_readers = 1 }

abbrev pub with_writer : Rwlock
with_writer = record init_rwlock { num_writers = 1 }

pub try_read_free : (rw : Rwlock) → rw ≡ init_rwlock → try_read rw ≡ (true, with_reader)
unfolding try_read
try_read_free lock free = rw free refl

pub try_write_free : (rw : Rwlock) → rw ≡ init_rwlock → try_write rw ≡ (true, with_writer)
unfolding try_write
try_write_free lock free = rw free refl
