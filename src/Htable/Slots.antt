-- ===== src/Htable/Slots.antt =====
-- kernel/src/ds/htable.c: the position of a round where the sum of the round and the key does not wrap.
use native.Mathlib.Nat.{mod-eq_of_lt}
use spoon_microkernel.Prelude.{ℕ, ◌%◌, ◌^◌, ◌<◌, ◌≡◌, refl, some, lt→ltb, arith}
use spoon_microkernel.Htable.{position}

pub position_lem : (sum size : ℕ) → sum < 2 ^ 31 → position sum size ≡ some (sum % size)
unfolding position
position_lem sum size small =
    let word : sum % 2 ^ 32 ≡ sum = mod-eq_of_lt (omega arith) in
    rw (word, position) (rw (lt→ltb sum (2 ^ 31) small) refl)
