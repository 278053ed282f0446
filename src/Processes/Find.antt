-- ===== src/Processes/Find.antt =====
-- `find_process` and `process_foreach`: walks along the list of all processes.
use spoon_microkernel.Prelude.{
  ℕ, zero, suc, ◌≤◌, ◌≡◌, refl, sym, ap, ◌∙◌, Bool, true, false, Bool-cases, inl, inr, Option, none,
  some, List, [], ◌∷◌, length, take, All, if◌then◌else◌, arith,
}
use spoon_microkernel.Prelude.Int.{ℤ, pos, minus_one, ◌==ℤ◌}
use spoon_microkernel.Strings.Compare.{same_string, strncmp_lem}
use spoon_microkernel.Rwlock.{Rwlock, init_rwlock}
use spoon_microkernel.Links.{Lists}
use spoon_microkernel.Links.Linked.{first, Linked}
use spoon_microkernel.Links.Laws.{IsList}
use spoon_microkernel.Processes.Locks.{try_read_free, try_write_free}
use spoon_microkernel.Processes.{
  Processes, ProcessEntry, process_name_length, next_linear, find_loop, find_process, foreach_loop,
  process_foreach,
}

-- The processes of the list are these, in this order, and each link stands in its own process.
pub record Walks (h : Lists) (root : Option ℕ) (l : List ℕ) : Type 0 where
  pub listed : IsList h l
  pub start : root ≡ first l none
  pub owned : All (λ p. h.object p ≡ p) l

-- The number of the first process of a list with the name, or -1.
abbrev pub first_pid : (ℕ → ProcessEntry) → (name : List ℕ) → List ℕ → ℤ
first_pid entry name [] = minus_one
first_pid entry name (p ∷ l) =
    if same_string (take process_name_length name) (take process_name_length (entry p).name)
    then (entry p).pid
    else first_pid entry name l

-- What a callback makes of the processes of a list, up to the first that it does not answer with 0.
abbrev pub visit : {S : Type 0} (callback : ℕ → S → ℤ × S) → List ℕ → ℤ → S → ℤ × S
visit callback [] ans state = (ans, state)
visit callback (p ∷ l) ans state =
    let r = callback p state in
    let rest = visit callback l r.0 r.1 in if r.0 ==ℤ pos 0 then rest else r

pub next_lem :
    (h : Lists) (before : Option ℕ) (p : ℕ) (l : List ℕ)
    → Linked h.prev h.next before (p ∷ l) none
    → All (λ q. h.object q ≡ q) l
    → next_linear h p ≡ first l none
next_lem h before p [] (_, on, _) own = rw (on, next_linear) refl
next_lem h before p (q ∷ l) (_, on, _) own = rw (on, next_linear) (ap (λ (x : ℕ). some x) own.0)

find_loop_lem :
    (fuel : ℕ) (name : List ℕ) (s : Processes) (before : Option ℕ) (l : List ℕ)
    → length l ≤ fuel
    → Linked s.lists.prev s.lists.next before l none
    → All (λ p. s.lists.object p ≡ p) l
    → find_loop fuel name (first l none) s ≡ some (first_pid s.entry name l)
unfolding find_loop
find_loop_lem zero name s before [] enough linked own = refl
find_loop_lem (suc fuel) name s before [] enough linked own = refl
find_loop_lem zero name s before (p ∷ l) enough linked own = absurd (omega arith)
find_loop_lem (suc fuel) name s before (p ∷ l) enough linked own =
    let rest = find_loop_lem fuel name s (some p) l (omega arith) linked.2 own.1 in
    let test = strncmp_lem name (s.entry p).name process_name_length (omega arith) in
    rw (next_lem s.lists before p l linked own.1) (
      rw test
        (elim (Bool-cases (
          same_string (take process_name_length name)
            (take process_name_length (s.entry p).name))) [
              | inl hit ↦ rw hit refl
              | inr miss ↦ rw miss rest
            ]))

foreach_loop_lem :
    {S : Type 0} (fuel : ℕ) (callback : ℕ → S → ℤ × S) (h : Lists) (before : Option ℕ) (l : List ℕ)
    (ans : ℤ) (state : S)
    → length l ≤ fuel
    → Linked h.prev h.next before l none
    → All (λ p. h.object p ≡ p) l
    → foreach_loop fuel callback (first l none) h ans state ≡ some (visit callback l ans state)
unfolding foreach_loop
foreach_loop_lem zero callback h before [] ans state enough linked own = refl
foreach_loop_lem (suc fuel) callback h before [] ans state enough linked own = refl
foreach_loop_lem zero callback h before (p ∷ l) ans state enough linked own = absurd (omega arith)
foreach_loop_lem (suc fuel) callback h before (p ∷ l) ans state enough linked own =
    let r = callback p state in
    rw (next_lem h before p l linked own.1) (elim (Bool-cases ((callback p state).0 ==ℤ pos 0)) [
      | inl more ↦
          rw more (foreach_loop_lem fuel callback h (some p) l r.0 r.1 (omega arith) linked.2 own.1)
      | inr done ↦ rw done refl
    ])

-- With the lock of the list free, `find_process` returns the number of the first process of the list
-- with the name, up to 64 bytes of it, or -1 if there is none, and leaves everything as it was.
pub find_process_lem :
    (fuel : ℕ) (name : List ℕ) (s : Processes) (l : List ℕ)
    → Walks s.lists s.root l
    → s.process_lock ≡ init_rwlock
    → length l ≤ fuel
    → find_process fuel name s ≡ some (first_pid s.entry name l, s)
unfolding find_process
find_process_lem fuel name s l w free enough =
    let found = find_loop_lem fuel name s none l enough w.listed.1 w.owned in
    rw (try_read_free s.process_lock free) (
      rw (ap (λ (p : Option ℕ). find_loop fuel name p s) w.start ∙ found) (
        ap (λ (k : Rwlock). some (first_pid s.entry name l, record s { process_lock = k }))
          (sym free)))

-- `process_foreach` calls back for the processes in the order of the list, until an answer is not 0,
-- and leaves the locks as they were.
pub process_foreach_lem :
    {S : Type 0} (fuel : ℕ) (callback : ℕ → S → ℤ × S) (reader : Bool) (s : Processes) (l : List ℕ)
    (state : S)
    → Walks s.lists s.root l
    → s.process_lock ≡ init_rwlock
    → length l ≤ fuel
    → process_foreach fuel callback reader s state
      ≡ some ((visit callback l (pos 0) state).0, (visit callback l (pos 0) state).1, s)
unfolding process_foreach
process_foreach_lem fuel callback true s l state w free enough =
    let called =
      foreach_loop_lem fuel callback s.lists none l (pos 0) state enough w.listed.1 w.owned in
    let r = visit callback l (pos 0) state in
    rw (try_read_free s.process_lock free) (
      rw
        (ap (λ (p : Option ℕ). foreach_loop fuel callback p s.lists (pos 0) state) w.start ∙ called)
        (ap (λ (k : Rwlock). some (r.0, r.1, record s { process_lock = k })) (sym free)))
process_foreach_lem fuel callback false s l state w free enough =
    let called =
      foreach_loop_lem fuel callback s.lists none l (pos 0) state enough w.listed.1 w.owned in
    let r = visit callback l (pos 0) state in
    rw (try_write_free s.process_lock free) (
      rw
        (ap (λ (p : Option ℕ). foreach_loop fuel callback p s.lists (pos 0) state) w.start ∙ called)
        (ap (λ (k : Rwlock). some (r.0, r.1, record s { process_lock = k })) (sym free)))
