-- ===== src/Processes/Checkout.antt =====
-- `checkout_process` and `commit_process`: a process is taken and given back.
use native.Mathlib.Decide.{ℕ_discrete}
use mathlib.Core.Path.{fun_ext}
use mathlib.Core.Option.{some-injective}
use spoon_microkernel.Prelude.{
  ℕ, ◌≡◌, refl, sym, ap, ◌∙◌, Bool, true, false, not, ◌&&◌, Option, none, some, update, update_self,
  update_ne, if◌then◌else◌, ◌>>=◌, assert, arith,
}
use spoon_microkernel.Prelude.Int.{ℤ, pos, is_neg, ◌==ℤ◌}
use spoon_microkernel.Rwlock.{Rwlock, init_rwlock, try_read, try_write}
use spoon_microkernel.Processes.{
  Processes, with_pid, insert_process, remove_process, checkout_process, commit_process,
  rwlock_release,
}
use spoon_microkernel.Processes.Locks.{with_reader, with_writer, try_read_free, try_write_free}

-- The lock that a reader or a writer holds alone.
abbrev held_by : (reader : Bool) → Rwlock
held_by reader = if reader then with_reader else with_writer

-- A process is checked out.
abbrev pub taken : (reader : Bool) (p : ℕ) → Processes → Processes
taken reader p s = record s {
  process_lock = with_reader;
  locks = update s.locks p (held_by reader);
}

checkout_lem :
    (pid : ℤ) (reader : Bool) (s : Processes) (p : ℕ)
    → s.process_lock ≡ init_rwlock
    → s.locks p ≡ init_rwlock
    → with_pid pid s ≡ some (some p)
    → checkout_process pid reader s ≡ some (some p, taken reader p s)
unfolding checkout_process
checkout_lem pid true s p free own found =
    rw (try_read_free s.process_lock free) (rw (found, try_read_free (s.locks p) own) refl)
checkout_lem pid false s p free own found =
    rw (try_read_free s.process_lock free) (rw (found, try_write_free (s.locks p) own) refl)

released :
    (reader : Bool) (p : ℕ) (locks : ℕ → Rwlock) (q : ℕ)
    → locks p ≡ init_rwlock
    → update
        (update locks p (held_by reader))
        p
        (rwlock_release (update locks p (held_by reader) p))
        q
      ≡ locks q
released reader p locks q own = elim (ℕ_discrete p q) [
  | yes same ↦
      update_self-at same
      ∙ ap rwlock_release (update_self locks p (held_by reader))
      ∙ free reader
      ∙ sym own
      ∙ ap locks same
  | no other ↦
      update_ne (update locks p (held_by reader))
        (rwlock_release (update locks p (held_by reader) p)) other
      ∙ update_ne locks (held_by reader) other
]
  where
    update_self-at :
        p ≡ q
        → update
            (update locks p (held_by reader))
            p
            (rwlock_release (update locks p (held_by reader) p))
            q
          ≡ rwlock_release (update locks p (held_by reader) p)
    update_self-at same = ground (arith, same)

    free : (reader : Bool) → rwlock_release (held_by reader) ≡ init_rwlock
    free true = refl
    free false = refl

given_back :
    (reader : Bool) (p : ℕ) (s : Processes)
    → s.process_lock ≡ init_rwlock
    → s.locks p ≡ init_rwlock
    → commit_process p (taken reader p s) ≡ s
unfolding commit_process
given_back reader p s free own =
    ap (λ (ls : ℕ → Rwlock). record s { process_lock = init_rwlock; locks = ls })
      (fun_ext (λ q. released reader p s.locks q own))
    ∙ ap (λ (k : Rwlock). record s { process_lock = k }) (sym free)

-- With both locks free, `checkout_process` of a number in the table returns its process, and
-- `commit_process` then leaves everything as it was before.
pub commit_process-checkout_process :
    (pid : ℤ) (reader : Bool) (s : Processes) (p : ℕ)
    → s.process_lock ≡ init_rwlock
    → s.locks p ≡ init_rwlock
    → with_pid pid s ≡ some (some p)
    → (s' : Processes) × (checkout_process pid reader s ≡ some (some p, s'))
      × (commit_process p s' ≡ s)
commit_process-checkout_process pid reader s p free own found =
    (taken reader p s, checkout_lem pid reader s p free own found, given_back reader p s free own)

try_read_one : try_read with_reader ≡ (true, record with_reader { num_readers = 2 })
unfolding try_read
try_read_one = refl

busy_list : try_write with_reader ≡ (false, record with_reader { write_request = 1 })
unfolding try_write
busy_list = refl

busy_read : try_read with_writer ≡ (false, with_writer)
unfolding try_read
busy_read = refl

busy_write : try_write with_writer ≡ (false, record with_writer { write_request = 1 })
unfolding try_write
busy_write = refl

module _ (s : Processes) (p : ℕ) where
  second_checkout :
      (other : ℤ) (reader : Bool)
      → with_pid other s ≡ some (some p)
      → checkout_process other reader (taken false p s) ≡ none
  unfolding checkout_process
  second_checkout other true found =
      rw (try_read_one) (rw found (rw (update_self s.locks p with_writer) (rw busy_read refl)))
  second_checkout other false found =
      rw (try_read_one) (rw found (rw (update_self s.locks p with_writer) (rw busy_write refl)))

  no_insert :
      (memory : ℕ → Bool) (depth root proc : ℕ) (parent : ℤ)
      → s.root ≡ some root
      → insert_process memory depth parent proc (taken false p s) ≡ none
  unfolding insert_process
  no_insert memory depth root proc parent rooted =
      rw rooted (rw busy_list (asserted (not (is_neg parent) && not (parent ==ℤ pos 0))))
    where
      nowhere : Option (ℤ × Processes)
      nowhere = none

      asserted : (b : Bool) → (assert b >>= λ _. nowhere) ≡ none
      asserted true = refl
      asserted false = refl

  no_remove :
      (memory : ℕ → Bool) (depth fuel proc : ℕ)
      → remove_process memory depth fuel proc (taken false p s) ≡ none
  unfolding remove_process
  no_remove memory depth fuel proc = rw busy_list refl

-- While a process is checked out by a writer, every other `checkout_process` that finds it waits, and
-- so do `insert_process` into a list with a root and `remove_process` of any process.
pub checkout_process-excludes :
    (pid : ℤ) (s s' : Processes) (p : ℕ)
    → s.process_lock ≡ init_rwlock
    → s.locks p ≡ init_rwlock
    → with_pid pid s ≡ some (some p)
    → checkout_process pid false s ≡ some (some p, s')
    → (other parent : ℤ) (reader : Bool) (memory : ℕ → Bool) (depth fuel root proc : ℕ)
    → with_pid other s ≡ some (some p)
    → s.root ≡ some root
    → (checkout_process other reader s' ≡ none)
      × (insert_process memory depth parent proc s' ≡ none)
      × (remove_process memory depth fuel proc s' ≡ none)
checkout_process-excludes pid s s' p free own found e other parent reader memory depth fuel root
      proc found' rooted =
    let pair = some-injective _ _ (sym (checkout_lem pid false s p free own found) ∙ e) in
    let same : taken false p s ≡ s' = ap (λ (r : Option ℕ × Processes). r.1) pair in
    rw (← same) (
      second_checkout s p other reader found',
      no_insert s p memory depth root proc parent rooted,
      no_remove s p memory depth fuel proc,
    )
