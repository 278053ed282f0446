-- ===== src/Aqueue/Fifo.antt =====
-- What a queue holds, and that putting and pulling work on it as on a list.
use native.Mathlib.Nat.{mod-lt}
use spoon_microkernel.Prelude.{
  ℕ, zero, suc, ◌+◌, ◌-◌, ◌*◌, ◌/◌, ◌%◌, ◌≤◌, ◌<◌, ◌≡◌, refl, ap, ◌∙◌, inl, inr, ◌&&◌, Bool, true,
  false, Option, none, some, List, [], ◌∷◌, ◌++◌, length, set, get_or, replicate, window, leb, ◌==◌,
  if◌then◌else◌, word_max, arith, Bool-cases, length-append, length-set, length-replicate,
  window-set, window-append,
}
use spoon_microkernel.Aqueue.{Aqueue, Page, put}
use spoon_microkernel.Aqueue.Flat.{
  flat, Sized, length-flat, flat-append, flat-set, Sized-set, Sized-append,
}
use spoon_microkernel.Aqueue.Inv.{IsValid, full_of_test, last_page_of_test}

module _ {A : Type 0} where
  -- The objects from the read position to the first free slot, oldest first.
  abbrev pub contents : Aqueue A → List (Option A)
  contents q = window q.position (q.last_position - q.position) (flat q.chain)

  -- The chain with the object `a` written to its page `p` at place `i`.
  abbrev written : List (Page A) → ℕ → ℕ → A → List (Page A)
  written c p i a = set c p (set (get_or c p []) i (some a))

  abbrev grown : Aqueue A → List (Page A)
  grown q = q.chain ++ (replicate q.obj_count none ∷ [])

  abbrev needs_page : Aqueue A → Bool
  needs_page q = q.last_position % q.obj_count == 0 && leb q.pages (q.last_position / q.obj_count)

  abbrev put_branch : Bool → A → Aqueue A → Bool × Aqueue A
  put_branch true a q = (
    true,
    record q {
      pages = q.pages + 1;
      last_position = q.last_position + 1;
      staging = 0;
      chain = written (grown q) (length q.chain) (q.last_position % q.obj_count) a;
    },
  )
  put_branch false a q = (false, q)

  abbrev put_result : Bool → A → Aqueue A → Bool × Aqueue A
  put_result memory a q = if needs_page q then put_branch memory a q else (
    true,
    record q {
      last_position = q.last_position + 1;
      staging = 0;
      chain = written q.chain (length q.chain - 1) (q.last_position % q.obj_count) a;
    },
  )

  put_lem :
      {q : Aqueue A} (memory : Bool) (a : A)
      → IsValid q
      → q.last_position + 1 < word_max
      → put memory a q ≡ put_result memory a q
  unfolding put
  put_lem {q} memory a v room = ground arith

  -- A write to the first free slot, which is in the last page, extends the contents by one.
  window-written :
      (n : ℕ) (c : List (Page A)) (p k b : ℕ) (a : A)
      → 0 < n
      → Sized n c
      → p < length c
      → b ≡ p * n + b % n
      → k ≤ b
      → window k (b + 1 - k) (flat (written c p (b % n) a))
        ≡ window k (b - k) (flat c) ++ (some a ∷ [])
  window-written n c p k b a hn s hp e h =
      let step : b + 1 - k ≡ suc (b - k) = omega arith in
      rw (step, flat-set n c p (b % n) b (some a) s (mod-lt b hn) hp e)
        (window-set k (b - k) b (flat c) (some a) (omega arith) inside)
    where
      inside : b < length (flat c)
      inside = grind (arith, length-flat n c s, mod-lt b hn)

pub pred_mul : (l n : ℕ) → 0 < l → l * n ≡ (l - 1) * n + n
pred_mul zero n h = absurd (omega arith)
pred_mul (suc l) n h = let e : suc l - 1 ≡ l = omega arith in rw e (omega arith)

module _ {A : Type 0} {q : Aqueue A} (v : IsValid q) where
  open v use {count_pos, counted, sized, ordered, capacity, tight}

  last_page :
      needs_page q ≡ false
      → (0 < length q.chain)
        × (q.last_position ≡ (length q.chain - 1) * q.obj_count + q.last_position % q.obj_count)
  last_page t =
      last_page_of_test (length q.chain) q.obj_count q.last_position count_pos capacity tight
        (rw counted at t)

  all_full : needs_page q ≡ true → (q.last_position ≡ length q.chain * q.obj_count)
  all_full t =
      full_of_test (length q.chain) q.obj_count q.last_position count_pos capacity (rw counted at t)

  new_page :
      needs_page q ≡ true
      → q.last_position ≡ length q.chain * q.obj_count + q.last_position % q.obj_count
  new_page t = ground (arith, all_full t)

  Sized-grown : Sized q.obj_count (grown q)
  Sized-grown = Sized-append q.obj_count q.chain _ sized (length-replicate q.obj_count none)

  length-grown : length (grown q) ≡ length q.chain + 1
  length-grown = length-append q.chain _

  window-stay :
      (a : A)
      → needs_page q ≡ false
      → window q.position
          (q.last_position + 1 - q.position)
          (flat (written q.chain (length q.chain - 1) (q.last_position % q.obj_count) a))
        ≡ contents q ++ (some a ∷ [])
  window-stay a t =
      window-written q.obj_count q.chain (length q.chain - 1) q.position q.last_position a count_pos
        sized (omega (arith, last_page t)) (last_page t).1 ordered

  window-grown :
      (a : A)
      → needs_page q ≡ true
      → window q.position
          (q.last_position + 1 - q.position)
          (flat (written (grown q) (length q.chain) (q.last_position % q.obj_count) a))
        ≡ contents q ++ (some a ∷ [])
  window-grown a t =
      window-written q.obj_count (grown q) (length q.chain) q.position q.last_position a count_pos
        Sized-grown (omega (arith, length-grown)) (new_page t) ordered
      ∙ ap (λ l. l ++ (some a ∷ []))
          (ap (window q.position (q.last_position - q.position)) (flat-append q.chain _)
            ∙ window-append q.position (q.last_position - q.position) (flat q.chain) _ held)
    where
      held : q.position + (q.last_position - q.position) ≤ length (flat q.chain)
      held = omega (arith, length-flat q.obj_count q.chain sized)

  -- Storing an object puts it behind the contents of a valid queue if there is a slot for it, and leaves
  -- the contents as they are if there is none, as long as the write position does not wrap.
  pub contents-put :
      (memory : Bool) (a : A)
      → q.last_position + 1 < word_max
      → contents (put memory a q).1
        ≡ (if (put memory a q).0 then contents q ++ (some a ∷ []) else contents q)
  contents-put memory a room = rw (put_lem memory a v room) (elim (Bool-cases (needs_page q)) [
    | inl full ↦
        rw full
          (elim memory
            as (λ m.
              contents (put_branch m a q).1
              ≡ (if (put_branch m a q).0 then contents q ++ (some a ∷ []) else contents q)) [
                | true ↦ window-grown a full
                | false ↦ refl
              ])
    | inr stay ↦ rw stay (window-stay a stay)
  ])

  IsValid-stay :
      (a : A)
      → q.last_position + 1 < word_max
      → needs_page q ≡ false
      → IsValid (record q {
        last_position = q.last_position + 1;
        staging = 0;
        chain = written q.chain (length q.chain - 1) (q.last_position % q.obj_count) a;
      })
  IsValid-stay a room t =
      let (some_page, place) = last_page t in
      let same =
        length-set q.chain (length q.chain - 1)
          (set (get_or q.chain (length q.chain - 1) []) (q.last_position % q.obj_count) (some a)) in
      let below = mod-lt q.last_position count_pos in
      let turn = pred_mul (length q.chain) q.obj_count some_page in
      record {
        count_pos = count_pos;
        counted = omega (arith, counted, same);
        sized = Sized-set q.obj_count q.chain _ _ _ sized;
        ordered = omega arith;
        in_page = v.in_page;
        capacity = rw same (omega (arith, place, below, turn));
        tight = inr (rw same (omega (arith, place, below, turn)));
        small = room;
        idle = refl;
      }

  IsValid-grown :
      (memory : Bool) (a : A)
      → q.last_position + 1 < word_max
      → needs_page q ≡ true
      → IsValid (put_branch memory a q).1
  IsValid-grown false a room t = v
  IsValid-grown true a room t =
      let same =
        length-set (grown q) (length q.chain)
          (set (get_or (grown q) (length q.chain) []) (q.last_position % q.obj_count) (some a)) in
      record {
        count_pos = count_pos;
        counted = omega (arith, counted, same, length-grown);
        sized = Sized-set q.obj_count (grown q) _ _ _ Sized-grown;
        ordered = omega arith;
        in_page = v.in_page;
        capacity = rw (same, length-grown) (omega (arith, all_full t));
        tight = inr (rw (same, length-grown) (omega (arith, all_full t)));
        small = room;
        idle = refl;
      }

  -- Storing keeps the invariant, with or without memory, as long as the write position does not wrap.
  pub put-IsValid :
      (memory : Bool) (a : A) → q.last_position + 1 < word_max → IsValid (put memory a q).1
  put-IsValid memory a room = rw (put_lem memory a v room) (elim (Bool-cases (needs_page q)) [
    | inl full ↦ rw full (IsValid-grown memory a room full)
    | inr stay ↦ rw stay (IsValid-stay a room stay)
  ])

  -- With memory at hand an object is always taken in.
  pub put-accepts : (a : A) → q.last_position + 1 < word_max → (put true a q).0 ≡ true
  put-accepts a room = rw (put_lem true a v room) (ground arith)

  pub last_position-put :
      (memory : Bool) (a : A)
      → q.last_position + 1 < word_max
      → (put memory a q).1.last_position ≤ q.last_position + 1
  last_position-put memory a room = rw (put_lem memory a v room) (ground arith)
