-- ===== src/Shmem/Ids.antt =====
-- The ids of the regions of kernel/src/shmem.c: the search for one that is in use by no region.
use mathlib.Core.Bool.{true≢false}
use mathlib.Core.Path.{subst}
use native.Mathlib.Nat.{mod-eq_of_lt}
use spoon_microkernel.Htable.{magnitude}
use spoon_microkernel.Prelude.{
  ℕ, zero, suc, ◌+◌, ◌^◌, ◌<◌, ◌≤◌, ◌≡◌, ◌≢◌, ◌⊎◌, ◌*◌, ◌%◌, ◌>>=◌, lt→ltb, refl, sym, ap, ◌∙◌,
  Option, none, some, inl, inr, Returns, Returns-map, arith,
}
use spoon_microkernel.Prelude.Int.{ℤ, pos, ◌==ℤ◌, ==ℤ_iff}
use spoon_microkernel.Htable.Lookup.{IsTable, Lookup, retrieved}
use spoon_microkernel.Htable.Numbers.{above, above-drops}
use spoon_microkernel.Htable.Stores.{Holds}
use spoon_microkernel.Shmem.{Shmem, shmem_key, with_id, roll_id, id_loop}

-- The id of the region at an address.
abbrev pub ids : Shmem → ℕ → ℤ
ids s p = (s.region p).id

-- No region of the table has the id.
abbrev pub IsFreeId : (id : ℤ) → Shmem → Type 0
IsFreeId id s = (p : ℕ) → Holds s.table p → (s.region p).id ≢ id

-- What a search for an id finds.
abbrev Found : (id : ℤ) → Shmem → Option ℕ → Type 0
Found id s o = Lookup (λ p. (s.region p).id ==ℤ id) s.table o

look_lem :
    (id : ℤ) (s : Shmem)
    → IsTable s.table
    → magnitude (shmem_key id) + s.table.size ≤ 2 ^ 31
    → ((with_id id s ≡ some none) × Found id s none)
      ⊎ ((a : ℕ) × (with_id id s ≡ some (some a)) × Found id s (some a))
look_lem id s v small = retrieved (λ p. (s.region p).id ==ℤ id) (shmem_key id) s.table v small

-- The key of a small id.
key_small : (n : ℕ) → n * 100 < 2 ^ 31 → shmem_key (pos n) ≡ pos (n * 100)
key_small n small =
    let word : n * 100 % 2 ^ 32 ≡ n * 100 = mod-eq_of_lt (omega arith) in
    rw word (rw (lt→ltb (n * 100) (2 ^ 31) small) refl)

pub key_fits :
    (n size : ℕ)
    → 0 < size
    → n * 100 + size ≤ 2 ^ 31
    → magnitude (shmem_key (pos n)) + size ≤ 2 ^ 31
key_fits n size slots small =
    subst (λ z. magnitude z + size ≤ 2 ^ 31) (sym (key_small n (omega (arith, slots)))) small

free_lem : (id : ℤ) (s : Shmem) → Found id s none → IsFreeId id s
free_lem id s look p (slot, lt, at) e =
    true≢false (sym ((==ℤ_iff (s.region p).id id).1 e) ∙ look slot p lt at)

used_lem :
    (n : ℕ) (s : Shmem) (a : ℕ)
    → Found (pos n) s (some a)
    → above (ids s) (suc n) s.table.table < above (ids s) n s.table.table
used_lem n s a (good, (slot, lt, at)) =
    above-drops (ids s) n s.table.table slot a at ((==ℤ_iff (s.region a).id (pos n)).0 good)

-- A region that is in the table is found, or another with its id.
pub found_lem :
    (id : ℤ) (s : Shmem) (a : ℕ)
    → IsTable s.table
    → Holds s.table a
    → (s.region a).id ≡ id
    → magnitude (shmem_key id) + s.table.size ≤ 2 ^ 31
    → (b : ℕ) × (with_id id s ≡ some (some b)) × ((s.region b).id ≡ id)
found_lem id s a v held e small = elim (look_lem id s v small) [
  | inl (missed, look) ↦ absurd (free_lem id s look a held e)
  | inr (b, found, (good, _)) ↦ (b, found, (==ℤ_iff (s.region b).id id).0 good)
]

-- A round that tries `id`.
abbrev id_round : (fuel : ℕ) → Shmem → (id : ℤ) → Option ℕ → Option (ℤ × Shmem)
id_round fuel s id none = some (id, record s { next_id = roll_id id })
id_round fuel s id (some _) = id_loop fuel (record s { next_id = roll_id id })

id_loop-eq :
    (fuel : ℕ) (id : ℤ) (s : Shmem) (o : Option ℕ)
    → s.next_id ≡ id
    → with_id id s ≡ some o
    → id_loop (suc fuel) s ≡ id_round fuel s id o
unfolding id_loop
id_loop-eq fuel id s o e found =
    joined s.next_id (with_id s.next_id s)
    ∙ ap (λ (x : ℤ). with_id x s >>= λ o. id_round fuel s x o) e
    ∙ ap (λ (r : Option (Option ℕ)). r >>= λ o. id_round fuel s id o) found
  where
    joined :
        (x : ℤ) (r : Option (Option ℕ))
        → (r >>= λ o. elim o [
          | none ↦ some (x, record s { next_id = roll_id x })
          | some _ ↦ id_loop fuel (record s { next_id = roll_id x })
        ])
          ≡ (r >>= λ o. id_round fuel s x o)
    joined x none = refl
    joined x (some none) = refl
    joined x (some (some p)) = refl

-- The id that the search settles on.
abbrev pub Settled : (n bound : ℕ) → Shmem → ℤ × Shmem → Type 0
Settled n bound s r =
    (m : ℕ) × (r ≡ (pos m, record s { next_id = pos (suc m) }))
    × (n ≤ m)
    × (m ≤ bound)
    × IsFreeId (pos m) s

rolled : (n : ℕ) → n + 1 < 2 ^ 31 → roll_id (pos n) ≡ pos (suc n)
rolled n small = ground arith

pub id_loop_lem :
    (fuel n : ℕ) (s : Shmem)
    → IsTable s.table
    → s.next_id ≡ pos n
    → above (ids s) n s.table.table < fuel
    → (n + above (ids s) n s.table.table) * 100 + s.table.size ≤ 2 ^ 31
    → Returns (id_loop fuel s) (Settled n (n + above (ids s) n s.table.table) s)
id_loop_lem zero n s v e enough small = absurd (omega arith)
id_loop_lem (suc fuel) n s v e enough small =
    let up = rolled n (omega (arith, small, v.slots)) in
    elim (look_lem (pos n) s v (key_fits n s.table.size v.slots (omega (arith, small)))) [
      | inl (missed, look) ↦
          rw (id_loop-eq fuel (pos n) s none e missed)
            (rw up (n, refl, omega arith, omega arith, free_lem (pos n) s look))
      | inr (a, found, look) ↦ rw (id_loop-eq fuel (pos n) s (some a) e found) (
          rw up (
            let fewer = used_lem n s a look in
            Returns-map (id_loop fuel (record s { next_id = pos (suc n) }))
              (Settled (suc n) (suc n + above (ids s) (suc n) s.table.table)
                (record s { next_id = pos (suc n) }))
              (Settled n (n + above (ids s) n s.table.table) s)
              (λ r (m, same, le, bound, free).
                (m, same, omega (arith, le), omega (arith, bound, fewer), free))
              (id_loop_lem fuel (suc n) (record s { next_id = pos (suc n) }) v refl
                (omega (arith, fewer, enough)) (omega (arith, fewer, small)))))
    ]
