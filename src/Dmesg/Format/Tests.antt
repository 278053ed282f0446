-- ===== src/Dmesg/Format/Tests.antt =====
-- Tests of formats and of the log.
use spoon_microkernel.Prelude.{
  ℕ, ◌≡◌, refl, false, some, List, [], ◌∷◌, ◌++◌, replicate, length-replicate, Returns, arith,
}
use spoon_microkernel.Prelude.Int.{negsuc}
use spoon_microkernel.Dmesg.{number_loop, write_from, dmesg_string, dmesg_uint, dmesg_int}
use spoon_microkernel.Dmesg.Format.{Argument, string, number, binary_loop, dmesg_bin, sdmesg}
use spoon_microkernel.Dmesg.Format.Text.{format_text, uint_text}
use spoon_microkernel.Dmesg.Format.Ring.{
  Log, dmesg_tmpsize, dmesg_bufsize, dmesg, get_dmesg, get_dmesg-dmesg,
}

-- "%s=%i"
abbrev assignment : List ℕ
assignment = b'%' ∷ b's' ∷ b'=' ∷ b'%' ∷ b'i' ∷ []

abbrev x_is_7 : List Argument
x_is_7 = string (some (b'x' ∷ [])) ∷ number (negsuc 6) ∷ []

assignment_text : format_text assignment false x_is_7 ≡ some (b'x' ∷ b'=' ∷ b'-' ∷ b'7' ∷ [])
unfolding uint_text number_loop
assignment_text = refl

formatted :
    sdmesg (replicate 6 1) 6 assignment x_is_7
    ≡ some (record { position = 4; buffer = b'x' ∷ b'=' ∷ b'-' ∷ b'7' ∷ 0 ∷ 1 ∷ []; flags = 0 })
unfolding sdmesg dmesg_int dmesg_string dmesg_uint number_loop write_from
formatted = refl

-- A text as long as the buffer has no terminator.
unterminated :
    sdmesg (replicate 2 1) 2 (b'a' ∷ b'b' ∷ []) []
    ≡ some (record { position = 2; buffer = b'a' ∷ b'b' ∷ []; flags = 0 })
unfolding sdmesg dmesg_string write_from
unterminated = refl

five_in_binary : dmesg_bin 8 5 ≡ (4, 49 ∷ 48 ∷ 49 ∷ 98 ∷ [])
unfolding dmesg_bin binary_loop write_from
five_in_binary = refl

abbrev short_log : Log
short_log = record { buffer = replicate dmesg_bufsize 65; position = 2 }

get_dmesg-dmesg_example :
    Returns (dmesg (replicate dmesg_tmpsize 0) assignment x_is_7 short_log) (λ r.
      (r.0 ≡ 4)
      × (get_dmesg 100 r.1 ≡ (6, (get_dmesg 100 short_log).1 ++ b'x' ∷ b'=' ∷ b'-' ∷ b'7' ∷ [])))
get_dmesg-dmesg_example =
    get_dmesg-dmesg (replicate dmesg_tmpsize 0) assignment x_is_7 short_log
      (b'x' ∷ b'=' ∷ b'-' ∷ b'7' ∷ []) 100 (length-replicate {A = ℕ} dmesg_tmpsize 0)
      (length-replicate {A = ℕ} dmesg_bufsize 65) assignment_text (omega arith) (omega arith)
      (omega arith)
