-- ===== src/Dmesg/Format.antt =====
-- `sdmesg` of kernel/src/dmesg.c: a format with its arguments is written to a buffer. The format is the
-- list of its bytes before the terminator. An argument that is missing, or not what the format says, is
-- undefined in C and `none` here.
pub mod Text
pub mod Whole
pub mod Ring
mod Tests
use spoon_microkernel.Prelude.{
  ℕ, zero, suc, ◌+◌, ◌-◌, ◌/◌, ◌%◌, Bool, true, false, Option, none, some, List, [], ◌∷◌, length,
  set, ltb, ◌==◌, if◌then◌else◌, ◌>>=◌,
}
use spoon_microkernel.Prelude.Int.{ℤ}
use spoon_microkernel.Dmesg.{write_from, dmesg_string, dmesg_uint, dmesg_int, dmesg_hex}

-- The loop of `dmesg_bin`, on the array that it fills, the newest byte in front.
unfoldable pub binary_loop : (fuel tmp : ℕ) (number : List ℕ) → List ℕ
binary_loop zero tmp number = number
binary_loop (suc fuel) tmp number =
    let bit = if tmp % 2 == 1 then 49 else 48 in
    let pushed = bit ∷ number in
    let spaced = if length pushed % 9 == 0 then 32 ∷ pushed else pushed in
    let rest = binary_loop fuel (tmp / 2) spaced in if ltb 0 tmp then rest else number

-- `dmesg_bin`
unfoldable pub dmesg_bin : (len num : ℕ) → ℕ × List ℕ
dmesg_bin len num = write_from (binary_loop 32 num (98 ∷ [])) len 0

-- An argument. A pointer to a string may be NULL.
pub data Argument : Type 0 where
  string : Option (List ℕ) → Argument
  number : ℤ → Argument
  unsigned : ℕ → Argument

-- What follows a `%`: `!`, `s`, `i`, `u`, `b`, `x`, or a letter that is skipped.
pub data Modifier : Type 0 where
  to_screen as_string as_int as_unsigned as_binary as_hex skipped : Modifier

abbrev pub modifier : (letter : ℕ) → Modifier
modifier letter =
    if letter == b'!'
    then to_screen
    else if letter == b's'
    then as_string
    else if letter == b'i'
    then as_int
    else if letter == b'u'
    then as_unsigned
    else if letter == b'b'
    then as_binary
    else if letter == b'x'
    then as_hex
    else skipped

-- A write of bytes into an array, from a position on.
abbrev pub overwrite : (position : ℕ) (bytes buffer : List ℕ) → List ℕ
overwrite position [] buffer = buffer
overwrite position (b ∷ bytes) [] = []
overwrite zero (b ∷ bytes) (x ∷ buffer) = b ∷ overwrite zero bytes buffer
overwrite (suc position) (b ∷ bytes) (x ∷ buffer) = x ∷ overwrite position (b ∷ bytes) buffer

-- The variables of `sdmesg`.
pub record Formatted : Type 0 where
  pub position : ℕ
  pub buffer : List ℕ
  pub flags : ℕ

-- `position += dmesg_string( tmpBuf, len, string )`, and so on
abbrev pub written : ℕ × List ℕ → Formatted → Formatted
written r f = record f { position = f.position + r.0; buffer = overwrite f.position r.1 f.buffer }

abbrev pub null_text : List ℕ
null_text = 78 ∷ 85 ∷ 76 ∷ 76 ∷ []

-- The bytes of a string, or of "NULL".
abbrev pub string_or_null : Option (List ℕ) → List ℕ
string_or_null none = null_text
string_or_null (some text) = text

-- The first `switch`, with `len` bytes left.
unfoldable pub convert :
    Modifier → (len : ℕ) → List Argument → Formatted → Option (Formatted × List Argument)
convert to_screen len args f = some (record f { flags = 1 }, args)
convert skipped len args f = some (f, args)
convert as_string len (string s ∷ args) f =
    some (written (dmesg_string len (string_or_null s)) f, args)
convert as_int len (number n ∷ args) f = some (written (dmesg_int len n) f, args)
convert as_unsigned len (unsigned n ∷ args) f = some (written (dmesg_uint len n) f, args)
convert as_binary len (unsigned n ∷ args) f = some (written (dmesg_bin len n) f, args)
convert as_hex len (unsigned n ∷ args) f = some (written (dmesg_hex len n) f, args)
convert _ len args f = none

-- The loop of `sdmesg`; `after_percent` is its `modifier`.
unfoldable pub format_loop :
    (max_len : ℕ) (format : List ℕ) (after_percent : Bool)
    → List Argument
    → Formatted
    → Option Formatted
unfolding convert
format_loop max_len [] after_percent args f = some f
format_loop max_len (letter ∷ format) true args f = do
  (f', args') ← convert (modifier letter) (max_len - f.position) args f
  format_loop max_len format false args' f'
format_loop max_len (letter ∷ format) false args f =
    let percent = letter == b'%' in
    format_loop max_len format percent args
      (if percent then f else written (dmesg_string (max_len - f.position) (letter ∷ [])) f)

-- The end of `sdmesg`
abbrev pub terminated : (max_len : ℕ) → Formatted → Formatted
terminated max_len f = record f {
  buffer = if ltb f.position max_len then set f.buffer f.position 0 else f.buffer;
}

-- `sdmesg`: the position that it returns, the buffer and the flags.
unfoldable pub sdmesg :
    (buffer : List ℕ) (max_len : ℕ) (format : List ℕ) → List Argument → Option Formatted
unfolding format_loop
sdmesg buffer max_len format args = do
  f ← format_loop max_len format false args (record { position = 0; buffer = buffer; flags = 0 })
  some (terminated max_len f)
