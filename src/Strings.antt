-- ===== src/Strings.antt =====
-- kernel/src/misc.c: the kernel's routines on strings. A string that is read is the list of its bytes
-- before the terminator, so that [] is a pointer to the terminator; an array that is written is the
-- list of all its bytes.
pub mod Compare
pub mod Copy
mod Tests
use spoon_microkernel.Prelude.{
  ℕ, zero, suc, ◌+◌, ◌-◌, ◌%◌, List, [], ◌∷◌, set, ltb, ◌==◌, if◌then◌else◌, word_max, sub32,
}
use spoon_microkernel.Prelude.Int.{ℤ, pos, minus_one}

-- The string that an array holds.
abbrev pub c_string : List ℕ → List ℕ
c_string [] = []
c_string (c ∷ bytes) = if c == 0 then [] else c ∷ c_string bytes

-- `strlen`, from `i` on. The loop moves `i` past the terminator before it stops.
unfoldable pub strlen_from : (i : ℕ) → List ℕ → ℕ
strlen_from i [] = i + 1
strlen_from i (c ∷ s) = strlen_from (i + 1) s

abbrev pub strlen : List ℕ → ℕ
strlen s = strlen_from 0 s

-- `strnlen`, from `i` on, with `rounds` bytes left.
unfoldable pub strnlen_from : (rounds i : ℕ) → List ℕ → ℕ
strnlen_from zero i s = i
strnlen_from (suc rounds) i [] = i
strnlen_from (suc rounds) i (c ∷ s) = strnlen_from rounds (i + 1) s

abbrev pub strnlen : List ℕ → ℕ → ℕ
strnlen s n = strnlen_from n 0 s

-- The loop of `strncmp`.
unfoldable pub compare_from : (a b : List ℕ) (n boom count : ℕ) → ℕ
compare_from [] [] n boom count = count
compare_from [] (d ∷ b) n boom count = count + 1
compare_from (c ∷ a) [] n boom count = count + 1
compare_from (c ∷ a) (d ∷ b) n boom count =
    let differ = if c == d then count else count + 1 in
    let rest = compare_from a b n (boom + 1) differ in if boom + 1 == n then differ else rest

-- `strncmp`: the number of places found to differ.
abbrev pub strncmp : (a b : List ℕ) (n : ℕ) → ℕ
strncmp a b n = compare_from a b n 0 0

-- The loop of `strncpy`, with `s1` at place `i` of the array: the place behind the loop, the `n` behind
-- the loop, and the array. Where the loop ends because `n` is 0, `n--` has made it 2 ^ 32 - 1.
unfoldable pub copy_from : (n i : ℕ) (source bytes : List ℕ) → ℕ × ℕ × List ℕ
copy_from zero i source bytes = (i, word_max - 1, bytes)
copy_from (suc n) i [] bytes = (suc i, n, set bytes i 0)
copy_from (suc n) i (c ∷ source) bytes = copy_from n (suc i) source (set bytes i c)

-- `strncpy`: the array. `s1[ n - 1 ]` has a 32-bit address, which wraps around.
unfoldable pub strncpy : (bytes source : List ℕ) (n : ℕ) → List ℕ
unfolding copy_from
strncpy bytes source n =
    let (i, left, copied) = copy_from n 0 source bytes in
    set copied ((i + sub32 left 1) % word_max) 0

-- `memcmp`
unfoldable pub memcmp : (s t : List ℕ) (n : ℕ) → ℤ
memcmp s t zero = pos 0
memcmp [] t (suc n) = pos 0
memcmp (c ∷ s) [] (suc n) = pos 0
memcmp (c ∷ s) (d ∷ t) (suc n) =
    if ltb c d then minus_one else (if ltb d c then pos 1 else memcmp s t n)
