-- ===== src/Strings/Copy.antt =====
-- What `strncpy` leaves in the array.
use native.Mathlib.Decide.{dec_lt}
use spoon_microkernel.Prelude.{
  ℕ, zero, suc, ◌+◌, ◌-◌, ◌%◌, ◌≤◌, ◌<◌, ◌≡◌, ◌≢◌, refl, ap, ◌∙◌, List, [], ◌∷◌, length, take, set,
  ltb, ◌==◌, if◌then◌else◌, word_max, sub32, arith, false,
}
use spoon_microkernel.Strings.{c_string, copy_from, strncpy}

-- No byte of a string that is read is 0.
unfoldable pub IsText : List ℕ → Type 0
IsText [] = Unit {0}
IsText (c ∷ s) = (c ≢ 0) × IsText s

copy_from-cons :
    (n i : ℕ) (s : List ℕ) (x : ℕ) (bytes : List ℕ)
    → copy_from n (suc i) s (x ∷ bytes)
      ≡ (suc (copy_from n i s bytes).0, (copy_from n i s bytes).1, x ∷ (copy_from n i s bytes).2)
unfolding copy_from
copy_from-cons zero i s x bytes = refl
copy_from-cons (suc n) i [] x bytes = refl
copy_from-cons (suc n) i (c ∷ s) x bytes = copy_from-cons n (suc i) s x (set bytes i c)

-- The array behind the loop.
filled : (n : ℕ) (s bytes : List ℕ) → List ℕ
filled zero s bytes = bytes
filled (suc n) s [] = []
filled (suc n) [] (b ∷ bytes) = 0 ∷ bytes
filled (suc n) (c ∷ s) (b ∷ bytes) = c ∷ filled n s bytes

copy_short :
    (n : ℕ) (s bytes : List ℕ)
    → length bytes ≡ n
    → length s < n
    → copy_from n 0 s bytes ≡ (suc (length s), n - 1 - length s, filled n s bytes)
unfolding copy_from filled
copy_short zero s bytes e short = absurd (omega arith)
copy_short (suc n) s [] e short = absurd (omega arith)
copy_short (suc n) [] (b ∷ bytes) e short =
    let left : n ≡ suc n - 1 - 0 = omega arith in ground arith
copy_short (suc n) (c ∷ s) (b ∷ bytes) e short =
    let left : n - 1 - length s ≡ suc n - 1 - suc (length s) = omega arith in
    copy_from-cons n 0 s c bytes
    ∙ rw (copy_short n s bytes (omega arith) (omega arith)) (rw left refl)

copy_long :
    (n : ℕ) (s bytes : List ℕ)
    → length bytes ≡ n
    → n ≤ length s
    → copy_from n 0 s bytes ≡ (n, word_max - 1, filled n s bytes)
unfolding copy_from filled
copy_long zero s bytes e long = refl
copy_long (suc n) s [] e long = absurd (omega arith)
copy_long (suc n) [] (b ∷ bytes) e long = absurd (omega arith)
copy_long (suc n) (c ∷ s) (b ∷ bytes) e long =
    copy_from-cons n 0 s c bytes ∙ rw (copy_long n s bytes (omega arith) (omega arith)) refl

string_short :
    (n : ℕ) (s bytes : List ℕ)
    → length bytes ≡ suc n
    → length s ≤ n
    → IsText s
    → c_string (set (filled (suc n) s bytes) n 0) ≡ s
unfolding filled IsText
string_short n s [] e short text = absurd (omega arith)
string_short zero [] (b ∷ bytes) e short text = refl
string_short (suc n) [] (b ∷ bytes) e short text = refl
string_short zero (c ∷ s) (b ∷ bytes) e short text = absurd (omega arith)
string_short (suc n) (c ∷ s) (b ∷ bytes) e short (some_byte, text) =
    let more : (c == 0) ≡ false = ground arith in
    rw more (ap (λ (l : List ℕ). c ∷ l) (string_short n s bytes (omega arith) (omega arith) text))

string_long :
    (n : ℕ) (s bytes : List ℕ)
    → length bytes ≡ suc (suc n)
    → suc (suc n) ≤ length s
    → IsText s
    → c_string (set (filled (suc (suc n)) s bytes) n 0) ≡ take n s
unfolding filled IsText
string_long n s [] e long text = absurd (omega arith)
string_long n [] (b ∷ bytes) e long text = absurd (omega arith)
string_long zero (c ∷ s) (b ∷ bytes) e long text = refl
string_long (suc n) (c ∷ s) (b ∷ bytes) e long (some_byte, text) =
    let more : (c == 0) ≡ false = ground arith in
    rw more (ap (λ (l : List ℕ). c ∷ l) (string_long n s bytes (omega arith) (omega arith) text))

-- A string that fits with its terminator is filled whole.
pub strncpy_lem :
    (s bytes : List ℕ) (n : ℕ)
    → length bytes ≡ n
    → length s < n
    → n < word_max
    → IsText s
    → c_string (strncpy bytes s n) ≡ s
unfolding strncpy
strncpy_lem s bytes zero e short small text = absurd (omega arith)
strncpy_lem s bytes (suc n) e short small text =
    let last : (suc (length s) + sub32 (suc n - 1 - length s) 1) % word_max ≡ n = omega arith in
    rw (copy_short (suc n) s bytes e short) (rw last (string_short n s bytes e (omega arith) text))

-- Of a string that does not fit with its terminator, all but two of the `n` places are filled.
pub strncpy-long :
    (s bytes : List ℕ) (n : ℕ)
    → length bytes ≡ n
    → 2 ≤ n
    → n ≤ length s
    → n < word_max
    → IsText s
    → c_string (strncpy bytes s n) ≡ take (n - 2) s
unfolding strncpy
strncpy-long s bytes zero e two long small text = absurd (omega arith)
strncpy-long s bytes (suc zero) e two long small text = absurd (omega arith)
strncpy-long s bytes (suc (suc n)) e two long small text =
    let last : (suc (suc n) + sub32 (word_max - 1) 1) % word_max ≡ n = omega arith in
    let fewer : n ≡ suc (suc n) - 2 = omega arith in
    rw (copy_long (suc (suc n)) s bytes e long)
      (rw last (string_long n s bytes e long text ∙ ap (λ (k : ℕ). take k s) fewer))

-- `strncpy` into an array of `n` places, `n` at least 2, leaves the string whole if it fits with its
-- terminator, and else all but its first `n - 2` bytes are lost.
pub c_string-strncpy :
    (s bytes : List ℕ) (n : ℕ)
    → length bytes ≡ n
    → 2 ≤ n
    → n < word_max
    → IsText s
    → c_string (strncpy bytes s n) ≡ (if ltb (length s) n then s else take (n - 2) s)
c_string-strncpy s bytes n e two small text = elim (dec_lt (length s) n) [
  | yes short ↦ strncpy_lem s bytes n e short small text ∙ ground arith
  | no long ↦ strncpy-long s bytes n e two (omega arith) small text ∙ ground arith
]
