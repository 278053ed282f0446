-- ===== src/Aqueue/Pull.antt =====
-- Reading from a queue: `aqueue_next`, with the read of the slot that it returns.
use native.Mathlib.Nat.{mul-le-mul_left, mul-le-mul_right, mod-eq_of_lt}
use native.Mathlib.Decide.{dec_lt}
use spoon_microkernel.Prelude.{
  ℕ, zero, suc, ◌+◌, ◌-◌, ◌*◌, ◌/◌, ◌%◌, ◌≤◌, ◌<◌, ◌≡◌, refl, ap, sym, ◌∙◌, ◌⊎◌, inl, inr, Option,
  none, List, [], ◌∷◌, length, get_or, drop, window, word_max, sub32, arith, window-suc,
  window-append_right, length-drop,
}
use spoon_microkernel.Aqueue.{Aqueue, Page, pull, trim}
use spoon_microkernel.Aqueue.Flat.{flat, Sized, length-flat, get_or-flat}
use spoon_microkernel.Aqueue.Inv.{IsValid}
use spoon_microkernel.Aqueue.Fifo.{contents, pred_mul}

pages_in_use :
    (l n b : ℕ)
    → 0 < n
    → n < b
    → b ≤ l * n
    → (l ≤ 1) ⊎ (l * n < b + n)
    → b < word_max
    → (2 ≤ l) × (l < word_max)
pages_in_use zero n b hn lt held tight small = absurd (omega arith)
pages_in_use (suc zero) n b hn lt held tight small = absurd (omega arith)
pages_in_use (suc (suc l)) n b hn lt held tight small =
    (omega arith, grind (arith, mul-le-mul_left l hn))

one_page : (l n : ℕ) → (l ≤ 1) ⊎ (l * n < n + n) → l ≤ 1
one_page l n h = elim (dec_lt 1 l) [
  | yes more ↦ absurd (omega (arith, mul-le-mul_right n more))
  | no few ↦ omega arith
]

module _ {A : Type 0} {q : Aqueue A} (v : IsValid q) where
  open v use {count_pos, counted, sized, ordered, in_page, capacity, tight, small}

  pull_empty :
      q.position ≡ q.last_position
      → pull q ≡ (none, record q { position = 0; last_position = 0; staging = 0 })
  unfolding pull
  pull_empty e = ground arith

  pull_stay :
      q.position < q.last_position
      → q.position < q.obj_count
      → pull q ≡ (
        get_or (get_or q.chain 0 []) q.position none,
        record q { position = q.position + 1; staging = 0 },
      )
  unfolding pull
  pull_stay lt inside =
      let d : q.position / q.obj_count ≡ 0 = grind arith in
      let m : q.position % q.obj_count ≡ q.position = mod-eq_of_lt inside in ground (arith, d, m)

  -- More than one page is in use where the first has been read to its end.
  two_pages :
      q.position < q.last_position
      → q.position ≡ q.obj_count
      → (2 ≤ length q.chain) × (length q.chain < word_max)
  two_pages lt edge =
      pages_in_use (length q.chain) q.obj_count q.last_position count_pos (omega arith) capacity
        tight small

  -- The step at the end of a page: it is freed, and the positions move back by its size.
  turned : Aqueue A
  turned = record q {
    pages = q.pages - 1;
    position = 1;
    last_position = q.last_position - q.obj_count;
    chain = drop 1 q.chain;
    staging = 0;
  }

  trim_turn :
      q.position < q.last_position
      → q.position ≡ q.obj_count
      → trim (q.position / q.obj_count) q ≡ record turned { position = 0; staging = q.staging }
  unfolding trim turned
  trim_turn lt edge =
      let d : q.position / q.obj_count ≡ suc zero = grind arith in
      let back : sub32 q.position q.obj_count ≡ 0 = omega arith in
      let rest : sub32 q.last_position q.obj_count ≡ q.last_position - q.obj_count = omega arith in
      let one_less : sub32 q.pages 1 ≡ q.pages - 1 = omega (arith, two_pages lt edge) in
      rw (d, trim) (rw (back, rest, one_less))

  pull_turn :
      q.position < q.last_position
      → q.position ≡ q.obj_count
      → pull q ≡ (get_or (get_or (drop 1 q.chain) 0 []) 0 none, turned)
  unfolding pull turned
  pull_turn lt edge =
      let m : q.position % q.obj_count ≡ 0 = grind arith in ground (arith, trim_turn lt edge, m)

-- The specification: a list gives its first element up.
abbrev pub uncons : {A : Type 0} → List (Option A) → Option A × List (Option A)
uncons [] = (none, [])
uncons (x ∷ rest) = (x, rest)

module _ {A : Type 0} where
  -- The first object of a stretch that begins in the first page.
  uncons-window :
      (n : ℕ) (c : List (Page A)) (a b : ℕ)
      → Sized n c
      → a < n
      → a < b
      → b ≤ length c * n
      → uncons (window a (b - a) (flat c))
        ≡ (get_or (get_or c 0 []) a none, window (a + 1) (b - (a + 1)) (flat c))
  uncons-window n c a b s inside lt held =
      let step : b - a ≡ suc (b - (a + 1)) = omega arith in
      let place : a + 1 ≡ suc a = omega arith in
      rw (
        step,
        window-suc a (b - (a + 1)) (flat c) none inside_flat,
        get_or-flat n c 0 a a s inside some_page (omega arith),
        place,
      )
    where
      inside_flat : a < length (flat c)
      inside_flat = omega (arith, length-flat n c s)

      some_page : 0 < length c
      some_page = grind arith

  pub uncons_head :
      (a b : ℕ) (l : List (Option A))
      → a < b
      → b ≤ length l
      → (uncons (window a (b - a) l)).0 ≡ get_or l a none
  uncons_head a b l lt held =
      let step : b - a ≡ suc (b - (a + 1)) = omega arith in
      rw (step, window-suc a (b - (a + 1)) l none (omega arith))

  -- The stretch from the end of the first page on, seen without that page.
  window-turn :
      (n : ℕ) (c : List (Page A)) (k : ℕ)
      → Sized n c
      → 0 < length c
      → window n k (flat c) ≡ window 0 k (flat (drop 1 c))
  window-turn n [] k s h = absurd (omega arith)
  window-turn n (page ∷ rest) k s h =
      window-append_right 0 n k page (flat rest) (omega (arith, s.0))

  Sized-drop : (n : ℕ) (c : List (Page A)) → Sized n c → Sized n (drop 1 c)
  Sized-drop n [] s = tt
  Sized-drop n (page ∷ rest) s = s.1

module _ {A : Type 0} {q : Aqueue A} (v : IsValid q) where
  open v use {count_pos, counted, sized, ordered, in_page, capacity, tight, small}

  refines_empty :
      q.position ≡ q.last_position → ((pull q).0, contents (pull q).1) ≡ uncons (contents q)
  refines_empty e =
      let none_left : q.last_position - q.position ≡ 0 = omega arith in
      rw (pull_empty v e) (rw none_left refl)

  refines_turn :
      q.position < q.last_position
      → q.position ≡ q.obj_count
      → ((pull q).0, contents (pull q).1) ≡ uncons (contents q)
  unfolding turned
  refines_turn lt edge = rw (pull_turn v lt edge) (
      sym (
        rw (edge, window-turn q.obj_count q.chain (q.last_position - q.obj_count) sized some_page)
          (rw same at (
            uncons-window q.obj_count (drop 1 q.chain) 0 (q.last_position - q.obj_count)
              (Sized-drop q.obj_count q.chain sized) count_pos (omega arith) held))))
    where
      same : q.last_position - q.obj_count - 0 ≡ q.last_position - q.obj_count
      same = omega arith

      some_page : 0 < length q.chain
      some_page = omega (arith, two_pages v lt edge)

      held : q.last_position - q.obj_count ≤ length (drop 1 q.chain) * q.obj_count
      held =
          rw (length-drop 1 q.chain)
            (omega (arith, pred_mul (length q.chain) q.obj_count some_page))

  -- Reading a valid queue takes the first of its contents, and an empty queue stays empty.
  pub pull_refines : ((pull q).0, contents (pull q).1) ≡ uncons (contents q)
  pull_refines = elim (dec_lt q.position q.last_position) [
    | no empty ↦ refines_empty (omega arith)
    | yes lt ↦ elim (dec_lt q.position q.obj_count) [
      | yes inside ↦ rw (pull_stay v lt inside) (
          sym
            (uncons-window q.obj_count q.chain q.position q.last_position sized inside lt capacity))
      | no edge ↦ refines_turn lt (omega arith)
    ]
  ]

  IsValid-turned : q.position < q.last_position → q.position ≡ q.obj_count → IsValid (turned v)
  unfolding turned
  IsValid-turned lt edge =
      let pages = two_pages v lt edge in
      let one_less = length-drop 1 q.chain in
      let turn = pred_mul (length q.chain) q.obj_count (omega arith) in
      record {
        count_pos = count_pos;
        counted = omega (arith, counted, one_less);
        sized = Sized-drop q.obj_count q.chain sized;
        ordered = omega arith;
        in_page = count_pos;
        capacity = rw one_less (omega (arith, turn));
        tight = inr (rw one_less (omega (arith, turn)));
        small = omega arith;
        idle = refl;
      }

  IsValid-moved :
      q.position < q.last_position
      → q.position < q.obj_count
      → IsValid (record q { position = q.position + 1; staging = 0 })
  IsValid-moved lt inside = record {
    count_pos = count_pos;
    counted = counted;
    sized = sized;
    ordered = omega arith;
    in_page = omega arith;
    capacity = capacity;
    tight = tight;
    small = small;
    idle = refl;
  }

  IsValid-emptied :
      q.position ≡ q.last_position
      → IsValid (record q { position = 0; last_position = 0; staging = 0 })
  IsValid-emptied e = record {
    count_pos = count_pos;
    counted = counted;
    sized = sized;
    ordered = omega arith;
    in_page = omega arith;
    capacity = omega arith;
    tight = inl (one_page (length q.chain) q.obj_count (omega (arith, tight)));
    small = omega arith;
    idle = refl;
  }

  -- Reading a valid queue keeps the invariant, at the end of a page and on an empty queue too.
  pub pull-IsValid : IsValid (pull q).1
  pull-IsValid = elim (dec_lt q.position q.last_position) [
    | no empty ↦ rw (pull_empty v (omega arith)) (IsValid-emptied (omega arith))
    | yes lt ↦ elim (dec_lt q.position q.obj_count) [
      | yes inside ↦ rw (pull_stay v lt inside) (IsValid-moved lt inside)
      | no edge ↦ rw (pull_turn v lt (omega arith)) (IsValid-turned lt (omega arith))
    ]
  ]

  pub last_position-pull : (pull q).1.last_position ≤ q.last_position
  unfolding turned
  last_position-pull = elim (dec_lt q.position q.last_position) [
    | no empty ↦ rw (pull_empty v (omega arith)) (omega arith)
    | yes lt ↦ elim (dec_lt q.position q.obj_count) [
      | yes inside ↦ rw (pull_stay v lt inside) (omega arith)
      | no edge ↦ rw (pull_turn v lt (omega arith)) (omega arith)
    ]
  ]

  -- At the end of a page the object taken is the one behind it.
  pub pull_at_edge :
      q.position < q.last_position
      → q.position ≡ q.obj_count
      → (pull q).0 ≡ get_or (flat q.chain) q.obj_count none
  pull_at_edge lt edge =
      ap (λ t. t.0) pull_refines
      ∙ uncons_head q.position q.last_position (flat q.chain) lt
          (omega (arith, length-flat q.obj_count q.chain sized))
      ∙ ap (λ k. get_or (flat q.chain) k none) edge
