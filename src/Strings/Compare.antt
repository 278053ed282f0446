-- ===== src/Strings/Compare.antt =====
-- `strncmp`, `strlen` and `strnlen` on strings.
use spoon_microkernel.Prelude.{
  ℕ, zero, suc, ◌+◌, ◌≤◌, ◌<◌, ◌≡◌, ◌↔◌, refl, inl, inr, Bool, true, false, Bool-cases, List, [],
  ◌∷◌, length, take, ◌==◌, ◌&&◌, arith,
}
use spoon_microkernel.Strings.{strlen_from, compare_from, strncmp}

-- Whether two strings are the same.
unfoldable pub same_string : (a b : List ℕ) → Bool
same_string [] [] = true
same_string [] (d ∷ b) = false
same_string (c ∷ a) [] = false
same_string (c ∷ a) (d ∷ b) = c == d && same_string a b

pub same_string_iff : (a b : List ℕ) → (same_string a b ≡ true) ↔ (a ≡ b)
unfolding same_string
same_string_iff [] [] = ground arith
same_string_iff [] (d ∷ b) = ground arith
same_string_iff (c ∷ a) [] = ground arith
same_string_iff (c ∷ a) (d ∷ b) = ground (arith, same_string_iff a b)

count-le : (a b : List ℕ) (n boom count : ℕ) → count ≤ compare_from a b n boom count
unfolding compare_from
count-le [] [] n boom count = omega arith
count-le [] (d ∷ b) n boom count = omega arith
count-le (c ∷ a) [] n boom count = omega arith
count-le (c ∷ a) (d ∷ b) n boom count =
    ground (arith, count-le a b n (boom + 1) count, count-le a b n (boom + 1) (count + 1))

compare_from_lem :
    (a b : List ℕ) (k boom : ℕ)
    → (compare_from a b (boom + suc k) boom 0 == 0) ≡ same_string (take (suc k) a) (take (suc k) b)
unfolding compare_from same_string
compare_from_lem [] [] k boom = refl
compare_from_lem [] (d ∷ b) k boom = refl
compare_from_lem (c ∷ a) [] k boom = refl
compare_from_lem (c ∷ a) (d ∷ b) zero boom = ground arith
compare_from_lem (c ∷ a) (d ∷ b) (suc k) boom =
    let next : boom + suc (suc k) ≡ boom + 1 + suc k = omega arith in
    let goes_on : (boom + 1 == boom + 1 + suc k) ≡ false = ground arith in
    let same = compare_from_lem a b k (boom + 1) in
    let fails = count-le a b (boom + 1 + suc k) (boom + 1) 1 in
    rw next (elim (Bool-cases (c == d)) [
      | inl equal ↦ rw (goes_on, compare_from) (rw (equal, compare_from) same)
      | inr other ↦ rw (goes_on, compare_from) (rw (other, compare_from) (not_zero _ fails))
    ])
  where
    not_zero : (k : ℕ) → 1 ≤ k → (k == 0) ≡ false
    not_zero k h = ground arith

-- `strncmp` with a positive limit returns 0 exactly if the strings agree up to the limit.
pub strncmp_lem :
    (a b : List ℕ) (n : ℕ) → 0 < n → (strncmp a b n == 0) ≡ same_string (take n a) (take n b)
strncmp_lem a b zero some_bytes = absurd (omega arith)
strncmp_lem a b (suc n) some_bytes = ground (arith, compare_from_lem a b n 0)

-- `strlen` counts the terminator too.
pub strlen_lem : (i : ℕ) (s : List ℕ) → strlen_from i s ≡ i + length s + 1
unfolding strlen_from
strlen_lem i [] = omega arith
strlen_lem i (c ∷ s) = omega (arith, strlen_lem (i + 1) s)
