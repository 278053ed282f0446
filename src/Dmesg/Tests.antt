-- ===== src/Dmesg/Tests.antt =====
-- Tests of the kernel's log.
use spoon_microkernel.Prelude.{ℕ, ◌-◌, ◌^◌, ◌≡◌, refl, List, [], ◌∷◌, length, arith}
use spoon_microkernel.Prelude.Int.{negsuc}
use spoon_microkernel.Dmesg.{
  number_loop, write_from, dmesg_string, dmesg_uint, dmesg_int, dmesg_hex,
}
use spoon_microkernel.Dmesg.Numbers.{Shows, dmesg_int_lem}

cut : dmesg_uint 2 345 ≡ (2, 51 ∷ 52 ∷ [])
unfolding dmesg_uint number_loop write_from
cut = refl

hexadecimal : dmesg_hex 16 175 ≡ (4, 48 ∷ 120 ∷ 65 ∷ 70 ∷ [])
unfolding dmesg_hex number_loop write_from
hexadecimal = refl

-- 2 ^ 32 - 5 is written with a byte below the digits: 53 would be "5", and 43 is "+".
unsigned : dmesg_uint 16 (2 ^ 32 - 5) ≡ (1, 43 ∷ [])
unfolding dmesg_uint number_loop write_from
unsigned = refl

-- -34 in three bytes: all three are written, and two are returned.
full : dmesg_int 3 (negsuc 33) ≡ (2, 45 ∷ 51 ∷ 52 ∷ [])
unfolding dmesg_int dmesg_string dmesg_uint number_loop write_from
full = refl

dmesg_int_lem_example :
    (text : List ℕ) × (dmesg_int 16 (negsuc 33) ≡ (length text, text)) × Shows (negsuc 33) text
dmesg_int_lem_example = dmesg_int_lem 16 (negsuc 33) (omega arith) (omega arith)
