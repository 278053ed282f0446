-- ===== src/Dmesg/Numbers.antt =====
-- `dmesg_int` and `dmesg_uint`: the text of a number, read as a decimal number.
use spoon_microkernel.Prelude.{
  ℕ, zero, suc, ◌+◌, ◌*◌, ◌-◌, ◌/◌, ◌%◌, ◌^◌, ◌<◌, ◌≤◌, ◌≡◌, inl, inr, refl, ap, ◌∙◌, true, false,
  Bool-cases, Option, none, some, List, [], ◌∷◌, length, ltb, leb, ◌==◌, if◌then◌else◌, ◌&&◌, arith,
}
use spoon_microkernel.Prelude.Int.{ℤ, pos, negsuc}
use spoon_microkernel.Htable.{magnitude}
use spoon_microkernel.Dmesg.{number_loop, write_from, dmesg_string, dmesg_uint, dmesg_int}

-- A text of digits as a number, behind the digits of `n`.
abbrev pub read_from : ℕ → List ℕ → Option ℕ
read_from n [] = some n
read_from n (c ∷ text) =
    let rest = read_from (n * 10 + (c - 48)) text in if leb 48 c && ltb c 58 then rest else none

-- The text is what is written for the number.
abbrev pub Shows : ℤ → List ℕ → Type 0
Shows (pos n) text = read_from 0 text ≡ some n
Shows (negsuc n) text = (rest : List ℕ) × (text ≡ 45 ∷ rest) × (read_from 0 rest ≡ some (suc n))

read_digit :
    (n d : ℕ) (text : List ℕ) → d < 10 → read_from n ((d + 48) ∷ text) ≡ read_from (n * 10 + d) text
read_digit n d text lt =
    let digit : (leb 48 (d + 48) && ltb (d + 48) 58) ≡ true = ground arith in
    let same : d + 48 - 48 ≡ d = omega arith in rw (digit, same) refl

number_loop_lem :
    (fuel tmp : ℕ) (number : List ℕ)
    → tmp < 10 ^ fuel
    → read_from 0 (number_loop 10 (λ d. d + 48) fuel tmp number) ≡ read_from tmp number
unfolding number_loop
number_loop_lem zero tmp number lt = ap (λ (n : ℕ). read_from n number) (omega arith)
number_loop_lem (suc fuel) tmp number lt =
    let digit : tmp % 10 < 10 = omega arith in
    let whole : tmp / 10 * 10 + tmp % 10 ≡ tmp = omega arith in
    elim (Bool-cases (tmp / 10 == 0)) [
      | inl last ↦
          let small : tmp / 10 ≡ 0 = ground (arith, last) in
          let same : 0 * 10 + tmp % 10 ≡ tmp = omega (arith, small) in
          rw last (read_digit 0 (tmp % 10) number digit ∙ ap (λ (n : ℕ). read_from n number) same)
      | inr more ↦ rw more (
          number_loop_lem fuel (tmp / 10) ((tmp % 10 + 48) ∷ number) (omega arith)
          ∙ read_digit (tmp / 10) (tmp % 10) number digit
          ∙ ap (λ (n : ℕ). read_from n number) whole)
    ]

length-number_loop :
    (letter : ℕ → ℕ) (fuel tmp : ℕ) (number : List ℕ)
    → length (number_loop 10 letter (suc fuel) tmp number) ≤ suc fuel + length number
unfolding number_loop
length-number_loop letter zero tmp number = elim (Bool-cases (tmp / 10 == 0)) [
  | inl last ↦ rw last (omega arith)
  | inr more ↦ rw more (omega arith)
]
length-number_loop letter (suc fuel) tmp number =
    let rest = length-number_loop letter fuel (tmp / 10) (letter (tmp % 10) ∷ number) in
    elim (Bool-cases (tmp / 10 == 0)) [
      | inl last ↦ rw last (omega arith)
      | inr more ↦ rw more (omega (arith, rest))
    ]

write_from_lem :
    (text : List ℕ) (len count : ℕ)
    → count + length text ≤ len
    → write_from text len count ≡ (count + length text, text)
unfolding write_from
write_from_lem [] len count fits = ap (λ (n : ℕ). (n, [])) (omega arith)
write_from_lem (c ∷ text) len count fits =
    let room : leb len count ≡ false = ground arith in
    let same : count + 1 + length text ≡ count + suc (length text) = omega arith in
    rw (room, write_from_lem text len (count + 1) (omega arith), same) refl

pub write_lem :
    (text : List ℕ) (len : ℕ) → length text ≤ len → write_from text len 0 ≡ (length text, text)
write_lem text len fits =
    write_from_lem text len 0 (omega (arith, fits)) ∙ ap (λ (n : ℕ). (n, text)) (omega arith)

-- `dmesg_uint` with room for ten digits, of a number below 2 ^ 31.
dmesg_uint_lem :
    (len num : ℕ)
    → num < 2 ^ 31
    → 10 ≤ len
    → (text : List ℕ) × (dmesg_uint len num ≡ (length text, text))
      × (length text ≤ 10)
      × (read_from 0 text ≡ some num)
unfolding dmesg_uint
dmesg_uint_lem len num small room =
    let text = number_loop 10 (λ d. d + 48) 10 num [] in
    let short : length text ≤ 10 = length-number_loop (λ d. d + 48) 9 num [] in
    let positive : ltb num (2 ^ 31) ≡ true = ground (arith, small) in
    (
      text,
      rw positive (write_lem text len (omega (arith, short, room))),
      short,
      number_loop_lem 10 num [] (omega (arith, small)),
    )

sign_lem : (len : ℕ) → 1 ≤ len → dmesg_string len (45 ∷ []) ≡ (1, 45 ∷ [])
unfolding dmesg_string
sign_lem len room = write_lem (45 ∷ []) len room

-- `dmesg_int` into a buffer of at least 12 bytes writes the sign, if the number is negative, and
-- digits that are read as the number, for every `int` but -2 ^ 31, and returns how many bytes it wrote.
pub dmesg_int_lem :
    (len : ℕ) (num : ℤ)
    → magnitude num < 2 ^ 31
    → 12 ≤ len
    → (text : List ℕ) × (dmesg_int len num ≡ (length text, text)) × Shows num text
unfolding dmesg_int
dmesg_int_lem len (pos n) small room =
    let (text, written, short, reads) = dmesg_uint_lem len n small (omega (arith, room)) in
    (text, written, reads)
dmesg_int_lem len (negsuc n) small room =
    let (text, written, short, reads) =
      dmesg_uint_lem (len - 1) (suc n) small (omega (arith, room)) in
    let open_end : (1 == len) ≡ false = ground (arith, room) in
    let more : leb (len - 1) (length text) ≡ false = ground (arith, room, short) in
    let next : length text + 1 ≡ suc (length text) = omega arith in
    (
      45 ∷ text,
      rw (sign_lem len (omega (arith, room))) (rw (open_end, written) (rw (more, next) refl)),
      (text, refl, reads),
    )
