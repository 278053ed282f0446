-- ===== src/Processes/Pids.antt =====
-- `next_pid`: the number that it gives is that of no process in the table, and the search ends.
use mathlib.Core.Bool.{true≢false}
use native.Mathlib.Nat.{mod-eq_of_lt}
use spoon_microkernel.Htable.{magnitude}
use spoon_microkernel.Prelude.{
  ℕ, zero, suc, ◌+◌, ◌^◌, ◌<◌, ◌≤◌, ◌≡◌, ◌≢◌, ◌⊎◌, ◌*◌, ◌%◌, ◌>>=◌, lt→ltb, refl, sym, ap, ◌∙◌,
  Option, none, some, inl, inr, Returns, Returns-map, Returns-bind, arith,
}
use spoon_microkernel.Prelude.Int.{ℤ, pos, minus_one, ==ℤ_iff}
use spoon_microkernel.Htable.Lookup.{IsTable, Lookup, retrieved}
use spoon_microkernel.Htable.Numbers.{above, above-occupied, above-drops}
use spoon_microkernel.Htable.Stores.{Holds}
use spoon_microkernel.Processes.{
  Processes, ptable_key, ptable_match, with_pid, increment32, try_pid, pid_loop, next_pid,
}

-- The number of the process at an address.
abbrev numbers : Processes → ℕ → ℤ
numbers s p = (s.entry p).pid

-- No process in the table has the number.
abbrev pub IsUnused : ℤ → Processes → Type 0
IsUnused pid s = (p : ℕ) → Holds s.table p → (s.entry p).pid ≢ pid

-- The key of a small number.
key_small : (n : ℕ) → n * 100 < 2 ^ 31 → ptable_key (pos n) ≡ pos (n * 100)
key_small n small =
    let word : n * 100 % 2 ^ 32 ≡ n * 100 = mod-eq_of_lt (omega arith) in
    rw word (rw (lt→ltb (n * 100) (2 ^ 31) small) refl)

key_fits :
    (n size : ℕ)
    → 0 < size
    → n * 100 + size ≤ 2 ^ 31
    → magnitude (ptable_key (pos n)) + size ≤ 2 ^ 31
key_fits n size slots small =
    omega (arith, ap magnitude (key_small n (omega (arith, slots))), small)

-- What a search for a number that is not -1 finds.
abbrev pub Found : (n : ℕ) → Processes → Option ℕ → Type 0
Found n s o = Lookup (λ p. ptable_match (pos n) (s.entry p)) s.table o

pub with_pid_lem :
    (n : ℕ) (s : Processes)
    → IsTable s.table
    → magnitude (ptable_key (pos n)) + s.table.size ≤ 2 ^ 31
    → ((with_pid (pos n) s ≡ some none) × Found n s none)
      ⊎ ((a : ℕ) × (with_pid (pos n) s ≡ some (some a)) × Found n s (some a))
with_pid_lem n s v small =
    retrieved (λ p. ptable_match (pos n) (s.entry p)) (ptable_key (pos n)) s.table v small

-- The number that the search settles on.
abbrev Settled : (n bound : ℕ) → Processes → Processes → Type 0
Settled n bound s s1 =
    (m : ℕ) × (s1 ≡ record s { last_pid = pos m }) × (n ≤ m) × (m ≤ bound) × IsUnused (pos m) s

unused_lem : (n : ℕ) (s : Processes) → Found n s none → IsUnused (pos n) s
unused_lem n s look p (slot, lt, at) e =
    true≢false (sym ((==ℤ_iff (s.entry p).pid (pos n)).1 e) ∙ look slot p lt at)

used_lem :
    (n : ℕ) (s : Processes) (a : ℕ)
    → Found n s (some a)
    → above (numbers s) (suc n) s.table.table < above (numbers s) n s.table.table
used_lem n s a (good, (slot, lt, at)) =
    above-drops (numbers s) n s.table.table slot a at ((==ℤ_iff (s.entry a).pid (pos n)).0 good)

next_try : (n : ℕ) → n + 1 < 2 ^ 31 → try_pid (pos n) (pos n) ≡ pos (suc n)
next_try n small = ground arith

-- A round that tries `l`.
abbrev pid_round : (fuel : ℕ) → Processes → ℤ → Option ℕ → Option Processes
pid_round fuel s l none = some (record s { last_pid = l })
pid_round fuel s l (some _) = pid_loop fuel l (record s { last_pid = l })

pid_loop-eq :
    (fuel : ℕ) (temp l : ℤ) (s : Processes) (o : Option ℕ)
    → try_pid temp s.last_pid ≡ l
    → with_pid l s ≡ some o
    → pid_loop (suc fuel) temp s ≡ pid_round fuel s l o
unfolding pid_loop
pid_loop-eq fuel temp l s o e found =
    split (try_pid temp s.last_pid)
    ∙ ap (λ (x : ℤ). with_pid x s >>= λ o. pid_round fuel s x o) e
    ∙ ap (λ (r : Option (Option ℕ)). r >>= λ o. pid_round fuel s l o) found
  where
    joined :
        (x : ℤ) (r : Option (Option ℕ))
        → (r >>= λ o. elim o [
          | none ↦ some (record s { last_pid = x })
          | some _ ↦ pid_loop fuel x (record s { last_pid = x })
        ])
          ≡ (r >>= λ o. pid_round fuel s x o)
    joined x none = refl
    joined x (some none) = refl
    joined x (some (some p)) = refl

    split :
        (x : ℤ)
        → (with_pid x s >>= λ o. elim o [
          | none ↦ some (record s { last_pid = x })
          | some _ ↦ pid_loop fuel x (record s { last_pid = x })
        ])
          ≡ (with_pid x s >>= λ o. pid_round fuel s x o)
    split x = joined x (with_pid x s)

pid_loop_lem :
    (fuel n : ℕ) (temp : ℤ) (s : Processes)
    → IsTable s.table
    → try_pid temp s.last_pid ≡ pos n
    → above (numbers s) n s.table.table < fuel
    → (n + above (numbers s) n s.table.table) * 100 + s.table.size ≤ 2 ^ 31
    → Returns (pid_loop fuel temp s) (Settled n (n + above (numbers s) n s.table.table) s)
pid_loop_lem zero n temp s v e enough small = absurd (omega arith)
pid_loop_lem (suc fuel) n temp s v e enough small =
    elim (with_pid_lem n s v (key_fits n s.table.size v.slots (omega (arith, small)))) [
      | inl (missed, look) ↦
          rw (pid_loop-eq fuel temp (pos n) s none e missed)
            (n, refl, omega arith, omega arith, unused_lem n s look)
      | inr (a, found, look) ↦ rw (pid_loop-eq fuel temp (pos n) s (some a) e found) (
          let fewer = used_lem n s a look in
          Returns-map (pid_loop fuel (pos n) (record s { last_pid = pos n }))
            (Settled (suc n) (suc n + above (numbers s) (suc n) s.table.table)
              (record s { last_pid = pos n }))
            (Settled n (n + above (numbers s) n s.table.table) s)
            (λ s1 (m, same, le, bound, free).
              (m, same, omega (arith, le), omega (arith, bound, fewer), free))
            (pid_loop_lem fuel (suc n) (pos n) (record s { last_pid = pos n }) v
              (next_try n (omega (arith, fewer, small, v.slots))) (omega (arith, fewer, enough))
              (omega (arith, fewer, small))))
    ]

-- While the counter and the number of processes together, times 100, stay below 2 ^ 31 by the size of
-- the table, `next_pid` returns, in one round more than there are processes at most; the number is that
-- of no process in the table, and not below the counter, which goes on from there. Nothing else changes.
pub next_pid_lem :
    (fuel n : ℕ) (s : Processes)
    → IsTable s.table
    → s.last_pid ≡ pos n
    → s.table.total < fuel
    → (n + s.table.total) * 100 + s.table.size ≤ 2 ^ 31
    → Returns (next_pid fuel s) (λ r.
      (m : ℕ) × (r ≡ (pos m, record s { last_pid = pos (suc m) })) × (n ≤ m) × IsUnused (pos m) s)
unfolding next_pid
next_pid_lem fuel n s v e enough small =
    let few : above (numbers s) n s.table.table ≤ s.table.total =
      omega (arith, above-occupied (numbers s) n s.table.table, v.counted) in
    Returns-bind (pid_loop fuel minus_one s)
      (λ s1. some (s1.last_pid, record s1 { last_pid = increment32 s1.last_pid }))
      (Settled n (n + above (numbers s) n s.table.table) s) _
      (λ s1 (m, same, le, bound, free).
        let up : increment32 (pos m) ≡ pos (suc m) = ground (arith, bound, few, small, v.slots) in
        rw same (rw up (m, refl, le, free)))
      (pid_loop_lem fuel n minus_one s v e (omega (arith, few, enough)) (omega (arith, few, small)))
