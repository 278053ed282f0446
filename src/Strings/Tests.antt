-- ===== src/Strings/Tests.antt =====
-- Strings in an array of four bytes.
use spoon_microkernel.Prelude.{
  ℕ, ◌-◌, ◌≡◌, refl, List, [], ◌∷◌, length, take, ltb, ◌==◌, if◌then◌else◌, arith,
}
use spoon_microkernel.Prelude.Int.{minus_one}
use spoon_microkernel.Strings.{
  c_string, strlen, strlen_from, strnlen, strnlen_from, strncmp, strncpy, memcmp,
}
use spoon_microkernel.Strings.Compare.{same_string, strncmp_lem}
use spoon_microkernel.Strings.Copy.{IsText, c_string-strncpy}

abbrev garbage : List ℕ
garbage = 9 ∷ 9 ∷ 9 ∷ 9 ∷ []

abbrev letters : List ℕ
letters = 97 ∷ 98 ∷ 99 ∷ 100 ∷ []

strncmp_lem_example :
    (strncmp letters (97 ∷ 98 ∷ []) 2 == 0) ≡ same_string (take 2 letters) (take 2 (97 ∷ 98 ∷ []))
strncmp_lem_example = strncmp_lem letters (97 ∷ 98 ∷ []) 2 (omega arith)

-- All four bytes do not fit with a terminator: two are left.
c_string-strncpy_example :
    c_string (strncpy garbage letters 4)
    ≡ (if ltb (length letters) 4 then letters else take (4 - 2) letters)
unfolding IsText
c_string-strncpy_example =
    c_string-strncpy letters garbage 4 refl (omega arith) (omega arith) (omega arith)

-- The length of an empty string counts its terminator, unlike with a limit.
strlen_empty : strlen [] ≡ 1
unfolding strlen_from
strlen_empty = refl

strnlen_empty : strnlen [] 3 ≡ 0
unfolding strnlen_from
strnlen_empty = refl

memcmp_less : memcmp (1 ∷ 2 ∷ []) (1 ∷ 3 ∷ []) 2 ≡ minus_one
unfolding memcmp
memcmp_less = refl
