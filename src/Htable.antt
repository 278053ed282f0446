-- ===== src/Htable.antt =====
-- kernel/src/ds/htable.c and kernel/src/include/ds/htable.h: the open-addressing hash table of the
-- kernel. The stored pointers are values of a type `A`; the two callbacks are arguments: the key of
-- a sample, and whether `compare` says 0 of a stored pointer and the sample. An `int` has 32 bits, and
-- its sums wrap. `none` is a halt, or a read of what stands in memory before the slots.
pub mod Slots
pub mod Insert
pub mod Lookup
pub mod Numbers
pub mod Stores
pub mod Refill
pub mod Grow
pub mod Erase
mod Tests
use spoon_microkernel.Prelude.{
  ℕ, zero, suc, ◌+◌, ◌-◌, ◌*◌, ◌/◌, ◌%◌, ◌^◌, Bool, true, false, ◌&&◌, Option, none, some, List, [],
  ◌∷◌, get_or, set, replicate, ltb, ◌==◌, if◌then◌else◌, ◌>>=◌,
}
use spoon_microkernel.Prelude.Int.{ℤ, pos, negsuc, minus_one}

-- `struct hash_table`
pub record HashTable (A : Type 0) : Type 0 where
  pub total : ℕ
  pub size : ℕ
  pub percent : ℕ
  pub table : List (Option A)

-- `if ( key < 0 ) key = -key;`, as the 32-bit word of the result: -2 ^ 31 stays what it is.
abbrev pub magnitude : ℤ → ℕ
magnitude (pos n) = n
magnitude (negsuc n) = suc n

-- `( i + key ) % table->size`, of the sum as a word. C's remainder has the sign of the sum: a negative
-- sum gives slot 0 where the size divides it, and else a position that is negative, `none`.
unfoldable pub position : (sum size : ℕ) → Option ℕ
position sum size =
    let word = sum % 2 ^ 32 in
    if ltb word (2 ^ 31)
    then some (word % size)
    else (if (2 ^ 32 - word) % size == 0 then some 0 else none)

module _ {A : Type 0} where
  -- The loop of `htable_retrieve`: `rounds` are left, from `i` on. `assert( position >= 0 )` halts.
  unfoldable pub probe :
      (matches : A → Bool) (key size : ℕ) (table : List (Option A)) (rounds i : ℕ)
      → Option (Option A)
  unfolding position
  probe matches key size table zero i = some none
  probe matches key size table (suc rounds) i =
      let rest = probe matches key size table rounds (i + 1) in
      elim (position (i + key) size) [
        | none ↦ none
        | some p ↦ elim (get_or table p none) [
          | none ↦ rest
          | some a ↦ if matches a then some (some a) else rest
        ]
      ]

  -- `htable_retrieve`; the inner `none` is its NULL.
  unfoldable pub retrieve : (matches : A → Bool) (key : ℤ) → HashTable A → Option (Option A)
  unfolding probe
  retrieve matches key t =
      if t.total == 0 then some none else probe matches (magnitude key) t.size t.table t.size 0

  -- `init_htable`, by what the two `malloc`s answer: `none` for the NULL that it returns itself, and
  -- a halt where it writes through the NULL of the second. A size that is not positive is 0 here.
  unfoldable pub init_htable :
      (size percent : ℕ) (memory slots : Bool) → Option (Option (HashTable A))
  init_htable size percent false slots = some none
  init_htable size percent true false = none
  init_htable size percent true true =
      let n = if size == 0 then 32 else size in
      some (some (record { total = 0; size = n; percent = percent; table = replicate n none }))

  -- The loop of `htable_insert`. `assert( position >= 0 )` halts.
  unfoldable pub place : (key : ℕ) (a : A) (rounds i : ℕ) → HashTable A → Option (HashTable A)
  unfolding position
  place key a zero i t = some t
  place key a (suc rounds) i t =
      let rest = place key a rounds (i + 1) t in
      elim (position (i + key) t.size) [
        | none ↦ none
        | some p ↦ elim (get_or t.table p none) [
          | none ↦ some (record t { table = set t.table p (some a); total = t.total + 1 })
          | some _ ↦ rest
        ]
      ]

  -- The second loop of `htable_rehash`, with the insertion as an argument.
  unfoldable pub reinsert :
      (insert : A → HashTable A → Option (ℤ × HashTable A))
      → List (Option A)
      → HashTable A
      → Option (HashTable A)
  reinsert insert [] t = some t
  reinsert insert (none ∷ slots) t = reinsert insert slots t
  reinsert insert (some a ∷ slots) t = do (_, t') ← insert a t; reinsert insert slots t'

  -- `htable_rehash`; `memory` says whether there is memory for the new table.
  unfoldable pub rehash :
      (insert : A → HashTable A → Option (ℤ × HashTable A)) (memory : Bool) (new_size : ℕ)
      → HashTable A
      → Option (ℤ × HashTable A)
  unfolding reinsert
  rehash insert false new_size t = some (minus_one, t)
  rehash insert true new_size t = do
    t' ←
        reinsert insert t.table
          (record t { size = new_size; total = 0; table = replicate new_size none })
    some (pos 0, t')

  -- `htable_insert`. It and `htable_rehash` call each other; the fuel bounds the depth of these
  -- calls, and `memory` answers for a table of each size.
  unfoldable pub insert :
      (key : A → ℤ) (memory : ℕ → Bool) (fuel : ℕ) → A → HashTable A → Option (ℤ × HashTable A)
  unfolding rehash place
  insert key memory zero a t = none
  insert key memory (suc fuel) a t =
      let inner = λ (b : A) (u : HashTable A). insert key memory fuel b u in
      if t.total == t.size then some (minus_one, t) else (do
        t' ←
            if ltb t.percent ((t.total + 1) * 100 / t.size)
            then (do (_, u) ← rehash inner (memory (t.size * 2)) (t.size * 2) t; some u)
            else some t
        u ← place (magnitude (key a)) a t'.size 0 t'
        some (pos 0, u))

  -- The loop of `htable_remove`; `same` compares pointers. It has no assertion, and reads what stands
  -- before the slots where the position is negative.
  unfoldable pub erase : (same : A → Bool) (key rounds i : ℕ) → HashTable A → Option (HashTable A)
  unfolding position
  erase same key zero i t = some t
  erase same key (suc rounds) i t =
      let rest = erase same key rounds (i + 1) t in
      elim (position (i + key) t.size) [
        | none ↦ none
        | some p ↦ elim (get_or t.table p none) [
          | none ↦ rest
          | some b ↦
              if same b
              then some (record t { table = set t.table p none; total = t.total - 1 })
              else rest
        ]
      ]

  -- `htable_remove`
  unfoldable pub remove :
      (key : A → ℤ) (same : A → A → Bool) (memory : ℕ → Bool) (fuel : ℕ)
      → A
      → HashTable A
      → Option (ℤ × HashTable A)
  unfolding rehash insert erase
  remove key same memory fuel a t = if t.total == 0 then some (minus_one, t) else (do
    t' ←
        if ltb ((t.total - 1) * 100 / t.size) (t.percent / 4) && ltb 32 t.size
        then (do
          (_, u) ← rehash (insert key memory fuel) (memory (t.size / 2)) (t.size / 2) t
          some u)
        else some t
    u ← erase (same a) (magnitude (key a)) t'.size 0 t'
    some (pos 0, u))

  -- The loop of `htable_get`: the pointer with `num` others before it.
  unfoldable pub nth_used : (num : ℕ) → List (Option A) → Option A
  nth_used num [] = none
  nth_used num (none ∷ slots) = nth_used num slots
  nth_used zero (some a ∷ slots) = some a
  nth_used (suc num) (some a ∷ slots) = nth_used num slots

  -- `htable_get`, of a number that is not negative.
  unfoldable pub get_nth : (num : ℕ) → HashTable A → Option A
  unfolding nth_used
  get_nth num t =
      if t.total == 0 then none else (if ltb num t.total then nth_used num t.table else none)
