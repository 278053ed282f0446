-- ===== src/Dmesg/Format/Text.antt =====
-- `sdmesg` with room for the whole text: what it writes, from the texts of the parts.
use mathlib.Core.Path.{subst}
use mathlib.Core.Option.{some-injective}
use mathlib.Core.List.{append-nil}
use spoon_microkernel.Prelude.{
  ℕ, zero, suc, ◌+◌, ◌-◌, ◌^◌, ◌≤◌, ◌<◌, ◌≡◌, refl, sym, ap, ◌∙◌, Bool, true, false, Bool-cases,
  inl, inr, Option, none, some, List, [], ◌∷◌, ◌++◌, length, length-append, take, ltb, leb, ◌==◌,
  if◌then◌else◌, Returns, ◌>>=◌, arith,
}
use spoon_microkernel.Prelude.Int.{ℤ, pos, negsuc}
use spoon_microkernel.Dmesg.{
  number_loop, dmesg_string, dmesg_uint, dmesg_int, dmesg_hex, hex_letter,
}
use spoon_microkernel.Dmesg.Numbers.{write_lem}
use spoon_microkernel.Dmesg.Format.{
  Argument, string, number, unsigned, Modifier, to_screen, as_string, as_int, as_unsigned,
  as_binary, as_hex, skipped, modifier, binary_loop, dmesg_bin, overwrite, Formatted, written,
  string_or_null, convert,
}

-- The digits that `dmesg_uint` writes.
unfoldable pub uint_text : ℕ → List ℕ
uint_text n =
    if ltb n (2 ^ 31)
    then number_loop 10 (λ d. d + 48) 10 n []
    else number_loop 10 (λ d. 48 - d) 10 (2 ^ 32 - n) []

abbrev pub int_text : ℤ → List ℕ
int_text (pos n) = uint_text n
int_text (negsuc n) = 45 ∷ uint_text (suc n)

-- The text for a modifier, and the arguments behind its own.
abbrev pub part_text : Modifier → List Argument → Option (List ℕ × List Argument)
part_text to_screen args = some ([], args)
part_text skipped args = some ([], args)
part_text as_string (string s ∷ args) = some (string_or_null s, args)
part_text as_int (number n ∷ args) = some (int_text n, args)
part_text as_unsigned (unsigned n ∷ args) = some (uint_text n, args)
part_text as_binary (unsigned n ∷ args) = some (binary_loop 32 n (98 ∷ []), args)
part_text as_hex (unsigned n ∷ args) = some (48 ∷ 120 ∷ number_loop 16 hex_letter 8 n [], args)
part_text _ args = none

-- The text of a format: its bytes, with the texts of the arguments in place of the modifiers.
abbrev pub format_text : (format : List ℕ) (after_percent : Bool) → List Argument → Option (List ℕ)
format_text [] after_percent args = some []
format_text (letter ∷ format) true args = do
  (text, args') ← part_text (modifier letter) args
  rest ← format_text format false args'
  some (text ++ rest)
format_text (letter ∷ format) false args =
    let percent = letter == b'%' in
    format_text format percent args >>= λ rest. some ((if percent then [] else letter ∷ []) ++ rest)

uint_lem :
    (len n : ℕ)
    → length (uint_text n) ≤ len
    → dmesg_uint len n ≡ (length (uint_text n), uint_text n)
unfolding dmesg_uint uint_text
uint_lem len n fits = elim (Bool-cases (ltb n (2 ^ 31))) [
  | inl small ↦ rw small (write_lem (number_loop 10 (λ d. d + 48) 10 n []) len (rw small at fits))
  | inr large ↦
      rw large (write_lem (number_loop 10 (λ d. 48 - d) 10 (2 ^ 32 - n) []) len (rw large at fits))
]

pub string_lem : (len : ℕ) (s : List ℕ) → length s ≤ len → dmesg_string len s ≡ (length s, s)
unfolding dmesg_string
string_lem len s fits = write_lem s len fits

-- A sign needs one byte more than it takes.
int_lem :
    (len : ℕ) (z : ℤ)
    → length (int_text z) < len
    → dmesg_int len z ≡ (length (int_text z), int_text z)
unfolding dmesg_int
int_lem len (pos n) fits = uint_lem len n (omega (arith, fits))
int_lem len (negsuc n) fits =
    let signed : dmesg_string len (45 ∷ []) ≡ (1, 45 ∷ []) = sign in
    let open_end : (1 == len) ≡ false = ground (arith, fits) in
    let digits = uint_lem (len - 1) (suc n) (omega (arith, fits)) in
    let more : leb (len - 1) (length (uint_text (suc n))) ≡ false = ground (arith, fits) in
    let next : length (uint_text (suc n)) + 1 ≡ suc (length (uint_text (suc n))) = omega arith in
    rw signed (rw (open_end, digits) (rw (more, next) refl))
  where
    sign : dmesg_string len (45 ∷ []) ≡ (1, 45 ∷ [])
    sign = string_lem len (45 ∷ []) (omega (arith, fits))

pub length-overwrite : (p : ℕ) (t buffer : List ℕ) → length (overwrite p t buffer) ≡ length buffer
length-overwrite p [] buffer = refl
length-overwrite p (b ∷ t) [] = refl
length-overwrite zero (b ∷ t) (x ∷ buffer) = ap suc (length-overwrite zero t buffer)
length-overwrite (suc p) (b ∷ t) (x ∷ buffer) = ap suc (length-overwrite p (b ∷ t) buffer)

pub take-overwrite_here :
    (t buffer : List ℕ) → length t ≤ length buffer → take (length t) (overwrite zero t buffer) ≡ t
take-overwrite_here [] buffer fits = refl
take-overwrite_here (b ∷ t) [] fits = absurd (omega arith)
take-overwrite_here (b ∷ t) (x ∷ buffer) fits =
    ap (λ (l : List ℕ). b ∷ l) (take-overwrite_here t buffer (omega arith))

-- What stands in the buffer up to the end of a write.
pub take-overwrite :
    (p : ℕ) (t buffer : List ℕ)
    → p + length t ≤ length buffer
    → take (length (take p buffer ++ t)) (overwrite p t buffer) ≡ take p buffer ++ t
take-overwrite zero t buffer fits = take-overwrite_here t buffer (omega arith)
take-overwrite (suc p) t [] fits = absurd (omega arith)
take-overwrite (suc p) [] (x ∷ buffer) fits =
    ap (λ (l : List ℕ). x ∷ l) (take-overwrite p [] buffer (omega arith))
take-overwrite (suc p) (b ∷ t) (x ∷ buffer) fits =
    ap (λ (l : List ℕ). x ∷ l) (take-overwrite p (b ∷ t) buffer (omega arith))

-- The buffer of `max_len` bytes starts with `done`, and the position is behind it.
pub record Wrote (max_len : ℕ) (done : List ℕ) (f : Formatted) : Type 0 where
  pub size : length f.buffer ≡ max_len
  pub position : f.position ≡ length done
  pub start : take (length done) f.buffer ≡ done

pub written-Wrote :
    (max_len : ℕ) (done t : List ℕ) (f : Formatted)
    → Wrote max_len done f
    → length done + length t ≤ max_len
    → Wrote max_len (done ++ t) (written (length t, t) f)
written-Wrote max_len done t f w fits = record {
  size = length-overwrite f.position t f.buffer ∙ w.size;
  position = omega (arith, w.position, length-append done t);
  start =
      let front : take f.position f.buffer ≡ done =
        ap (λ (n : ℕ). take n f.buffer) w.position ∙ w.start in
      subst (λ l. take (length (l ++ t)) (overwrite f.position t f.buffer) ≡ l ++ t) front
        (take-overwrite f.position t f.buffer (omega (arith, w.position, w.size, fits)));
}

pub nothing-Wrote :
    (max_len : ℕ) (done : List ℕ) (f : Formatted)
    → Wrote max_len done f
    → Wrote max_len (done ++ []) f
nothing-Wrote max_len done f w = subst (λ l. Wrote max_len l f) (sym (append-nil done)) w

-- A part with its text, `part`, behind what is done.
placed :
    (max_len : ℕ) (done part t : List ℕ) (args rest : List Argument) (f : Formatted)
    (r : ℕ × List ℕ)
    → Wrote max_len done f
    → ◌≡◌ {A = Option (List ℕ × List Argument)} (some (part, args)) (some (t, rest))
    → length done + length t < max_len
    → (length part < max_len - f.position → r ≡ (length part, part))
    → Wrote max_len (done ++ t) (written r f) × (args ≡ rest)
placed max_len done part t args rest f r w e fits wrote =
    let pair = some-injective (part, args) (t, rest) e in
    let same : part ≡ t = ap (λ (x : List ℕ × List Argument). x.0) pair in
    let long : length part ≡ length t = ap (λ (l : List ℕ). length l) same in
    let out = wrote (omega (arith, fits, long, w.position)) in
    (
      subst (λ l. Wrote max_len (done ++ l) (written r f)) same
          (rw out (written-Wrote max_len done part f w (omega (arith, fits, long)))),
      ap (λ (x : List ℕ × List Argument). x.1) pair,
    )

-- A modifier without a text.
silent :
    (max_len : ℕ) (done t : List ℕ) (args rest : List Argument) (f f' : Formatted)
    → Wrote max_len done f'
    → ◌≡◌ {A = Option (List ℕ × List Argument)} (some ([], args)) (some (t, rest))
    → Wrote max_len (done ++ t) f' × (args ≡ rest)
silent max_len done t args rest f f' w e =
    let pair = some-injective ([], args) (t, rest) e in
    (
      subst (λ l. Wrote max_len (done ++ l) f') (ap (λ (x : List ℕ × List Argument). x.0) pair)
          (nothing-Wrote max_len done f' w),
      ap (λ (x : List ℕ × List Argument). x.1) pair,
    )

less : {a b : ℕ} → a < b → a ≤ b
less h = omega (arith, h)

-- A modifier writes its text.
pub convert_lem :
    (max_len : ℕ) (m : Modifier) (args : List Argument) (f : Formatted) (done t : List ℕ)
    (rest : List Argument)
    → Wrote max_len done f
    → part_text m args ≡ some (t, rest)
    → length done + length t < max_len
    → Returns
        (convert m (max_len - f.position) args f)
        (λ r. Wrote max_len (done ++ t) r.0 × (r.1 ≡ rest))
unfolding convert dmesg_hex dmesg_bin
convert_lem max_len to_screen args f done t rest w e fits =
    silent max_len done t args rest f (record f { flags = 1 })
      (record { size = w.size; position = w.position; start = w.start }) e
convert_lem max_len skipped args f done t rest w e fits = silent max_len done t args rest f f w e
convert_lem max_len as_string (string s ∷ args) f done t rest w e fits =
    placed max_len done (string_or_null s) t args rest f _ w e fits
      (λ h. string_lem (max_len - f.position) (string_or_null s) (less h))
convert_lem max_len as_int (number n ∷ args) f done t rest w e fits =
    placed max_len done (int_text n) t args rest f _ w e fits
      (λ h. int_lem (max_len - f.position) n h)
convert_lem max_len as_unsigned (unsigned n ∷ args) f done t rest w e fits =
    placed max_len done (uint_text n) t args rest f _ w e fits
      (λ h. uint_lem (max_len - f.position) n (less h))
convert_lem max_len as_binary (unsigned n ∷ args) f done t rest w e fits =
    placed max_len done (binary_loop 32 n (98 ∷ [])) t args rest f _ w e fits
      (λ h. write_lem (binary_loop 32 n (98 ∷ [])) (max_len - f.position) (less h))
convert_lem max_len as_hex (unsigned n ∷ args) f done t rest w e fits =
    placed max_len done (48 ∷ 120 ∷ number_loop 16 hex_letter 8 n []) t args rest f _ w e fits
      (λ h. write_lem (48 ∷ 120 ∷ number_loop 16 hex_letter 8 n []) (max_len - f.position) (less h))
convert_lem max_len m args f done t rest w e fits = cc
