-- ===== src/Aqueue/Inv.antt =====
-- The representation invariant of `struct ds_aqueue`, and where `aqueue_new` and `aqueue_next` point.
use native.Mathlib.Nat.{div-add-mod, mod-lt, mul_comm, mul-le-mul_right}
use native.Mathlib.Decide.{dec_lt}
use spoon_microkernel.Prelude.{
  ℕ, zero, suc, ◌+◌, ◌-◌, ◌*◌, ◌/◌, ◌%◌, ◌≤◌, ◌<◌, ◌≡◌, ◌⊎◌, ◌&&◌, true, false, length, leb, ◌==◌,
  word_max, arith,
}
use spoon_microkernel.Aqueue.{Aqueue}
use spoon_microkernel.Aqueue.Flat.{Sized}

-- The pages are counted and full-sized, the read position has not left the first page by more than
-- its end, and no page stands empty behind the last object (but for a queue with a single page).
pub record IsValid {A : Type 0} (q : Aqueue A) : Type 0 where
  pub count_pos : 0 < q.obj_count
  pub counted : q.pages ≡ length q.chain
  pub sized : Sized q.obj_count q.chain
  pub ordered : q.position ≤ q.last_position
  pub in_page : q.position ≤ q.obj_count
  pub capacity : q.last_position ≤ length q.chain * q.obj_count
  pub tight : (length q.chain ≤ 1) ⊎ (length q.chain * q.obj_count < q.last_position + q.obj_count)
  pub small : q.last_position < word_max
  pub idle : q.staging ≡ 0

-- With `l` pages of `n` slots and `b` slots used: the test of `aqueue_new` for a new page passes
-- exactly when the pages are full, and otherwise the next slot is in the last page.
pub full_of_test :
    (l n b : ℕ) → 0 < n → b ≤ l * n → (b % n == 0 && leb l (b / n)) ≡ true → b ≡ l * n
full_of_test l n b hn held t = grind (arith, div-add-mod b n, mul_comm)

full_of_empty : (n b : ℕ) → 0 < n → b ≡ 0 → (b % n == 0 && leb 0 (b / n)) ≡ true
full_of_empty n b hn e = ground arith

test_page :
    (l n b d r : ℕ)
    → r < n
    → n * d + r ≡ b
    → b ≤ suc l * n
    → (suc l ≤ 1) ⊎ (suc l * n < b + n)
    → (r == 0 && leb (suc l) d) ≡ false
    → d ≡ l
test_page l n b d r hr e held tight t = elim (dec_lt d l) [
  | yes below ↦ absurd (omega (arith, mul-le-mul_right n below, mul_comm n d, tight))
  | no above_or_eq ↦ elim (dec_lt l d) [
    | yes above ↦ absurd (grind (arith, mul-le-mul_right n above, mul_comm n d))
    | no not_above ↦ omega arith
  ]
]

pub last_page_of_test :
    (l n b : ℕ)
    → 0 < n
    → b ≤ l * n
    → (l ≤ 1) ⊎ (l * n < b + n)
    → (b % n == 0 && leb l (b / n)) ≡ false
    → (0 < l) × (b ≡ (l - 1) * n + b % n)
last_page_of_test zero n b hn held tight t =
    absurd (ground (arith, full_of_empty n b hn (omega arith)))
last_page_of_test (suc l) n b hn held tight t =
    let page = test_page l n b (b / n) (b % n) (mod-lt b hn) (div-add-mod b n) held tight t in
    let back : suc l - 1 ≡ l = omega arith in
    (omega arith, rw back (rw (← page) (omega (arith, div-add-mod b n, mul_comm n (b / n)))))
