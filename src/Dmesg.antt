-- ===== src/Dmesg.antt =====
-- kernel/src/dmesg.c: how numbers and strings are written to the kernel's log. A function returns what
-- it returns in C, and the bytes that it wrote from the start of the buffer on.
pub mod Numbers
pub mod Format
mod Tests
use spoon_microkernel.Prelude.{
  ℕ, zero, suc, ◌+◌, ◌-◌, ◌/◌, ◌%◌, ◌^◌, Bool, List, [], ◌∷◌, ltb, leb, ◌==◌, if◌then◌else◌,
}
use spoon_microkernel.Prelude.Int.{ℤ, pos, negsuc}

-- The loop that puts the digits of a number into an array, the last digit first. The array is a list
-- with the newest element in front, as the loop behind it reads them.
unfoldable pub number_loop : (base : ℕ) (letter : ℕ → ℕ) (fuel tmp : ℕ) (number : List ℕ) → List ℕ
number_loop base letter zero tmp number = number
number_loop base letter (suc fuel) tmp number =
    let rest = number_loop base letter fuel (tmp / base) (letter (tmp % base) ∷ number) in
    if tmp / base == 0 then letter (tmp % base) ∷ number else rest

-- The loop that writes an array or a string to the buffer of `len` bytes.
unfoldable pub write_from : (text : List ℕ) (len count : ℕ) → ℕ × List ℕ
write_from [] len count = (count, [])
write_from (c ∷ text) len count =
    let rest = write_from text len (count + 1) in
    if leb len count then (len, []) else (rest.0, c ∷ rest.1)

-- `dmesg_string`, with the bytes of `str` before its terminator.
unfoldable pub dmesg_string : (len : ℕ) (str : List ℕ) → ℕ × List ℕ
dmesg_string len str = write_from str len 0

-- `dmesg_uint`: `tmp` is an `int`, and from 2 ^ 31 on it is negative, and so are its remainders.
unfoldable pub dmesg_uint : (len num : ℕ) → ℕ × List ℕ
dmesg_uint len num =
    if ltb num (2 ^ 31)
    then write_from (number_loop 10 (λ d. d + 48) 10 num []) len 0
    else write_from (number_loop 10 (λ d. 48 - d) 10 (2 ^ 32 - num) []) len 0

-- The part of `dmesg_int` behind the sign.
abbrev pub behind_sign : (len : ℕ) → ℕ × List ℕ → ℕ × List ℕ
behind_sign len r = (if leb (len - 1) r.0 then r.0 else r.0 + 1, 45 ∷ r.1)

unfoldable pub dmesg_int : (len : ℕ) (num : ℤ) → ℕ × List ℕ
dmesg_int len (pos n) = dmesg_uint len n
dmesg_int len (negsuc n) =
    let sign = dmesg_string len (45 ∷ []) in
    if sign.0 == len then (len, sign.1) else behind_sign len (dmesg_uint (len - 1) (suc n))

abbrev pub hex_letter : ℕ → ℕ
hex_letter d = if ltb d 10 then d + 48 else d - 10 + 65

-- `dmesg_hex`: "0x" and the digits.
unfoldable pub dmesg_hex : (len hex : ℕ) → ℕ × List ℕ
dmesg_hex len hex = write_from (48 ∷ 120 ∷ number_loop 16 hex_letter 8 hex []) len 0
