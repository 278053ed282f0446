-- ===== src/Htable/Refill.antt =====
-- `htable_rehash`: a table of another size takes up the pointers of the old one.
use native.Mathlib.Nat.{div-le_of_le-mul}
use mathlib.Core.Path.{subst}
use mathlib.Core.Option.{some-injective}
use spoon_microkernel.Prelude.{
  ℕ, zero, suc, ◌+◌, ◌*◌, ◌/◌, ◌<◌, ◌≤◌, ◌≡◌, ◌⊎◌, inl, inr, refl, sym, ◌∙◌, Bool, true, false,
  Option, none, some, List, [], ◌∷◌, length-replicate, replicate, get_or, ltb, ◌==◌, Returns,
  Returns-map, Returns-bind, ◌>>=◌, ◌^◌, length, arith,
}
use spoon_microkernel.Prelude.Int.{ℤ, pos}
use spoon_microkernel.Htable.{HashTable, magnitude, place, insert, reinsert, rehash}
use spoon_microkernel.Htable.Lookup.{occupied}
use spoon_microkernel.Htable.Stores.{Holds, IsSound, KeysFit, Stores, Placed-Stores}
use spoon_microkernel.Htable.Insert.{HasRoom, HasRoom-HasSlot, Placed, place_free}

-- A table filled by less than half need not grow.
half_full :
    (n size percent : ℕ) → n * 2 ≤ size → 50 ≤ percent → ltb percent (n * 100 / size) ≡ false
half_full n size percent le half =
    let small : n * 100 / size ≤ 50 = div-le_of_le-mul size (omega arith) in ground arith

occupied-replicate : (A : Type 0) (n : ℕ) → occupied (replicate {A = Option A} n none) ≡ 0
occupied-replicate A zero = refl
occupied-replicate A (suc n) = occupied-replicate A n

module _ {A : Type 0} where
  in_slots :
      (slots : List (Option A)) (p : ℕ) (b : A) → get_or slots p none ≡ some b → p < length slots
  in_slots [] p b e = cc
  in_slots (o ∷ slots) zero b e = omega arith
  in_slots (o ∷ slots) (suc p) b e = omega (arith, in_slots slots p b e)

  -- What holds of the pointers behind the first slot.
  past :
      (l : List (Option A)) (t : HashTable A) (p : ℕ) (b : A)
      → ((p : ℕ) (b : A) → get_or l p none ≡ some b → Holds t b)
      → get_or (none ∷ l) p none ≡ some b
      → Holds t b
  past l t zero b later e = cc
  past l t (suc p) b later e = later p b e

  first :
      (a : A) (l : List (Option A)) (t : HashTable A) (p : ℕ) (b : A)
      → Holds t a
      → ((p : ℕ) (b : A) → get_or l p none ≡ some b → Holds t b)
      → get_or (some a ∷ l) p none ≡ some b
      → Holds t b
  first a l t zero b held later e = subst (Holds t) (some-injective a b e) held
  first a l t (suc p) b held later e = later p b e

  module _ (key : A → ℤ) (memory : ℕ → Bool) (fuel : ℕ) where
    -- `htable_insert` where the table need not grow.
    insert_roomy :
        (a : A) (t : HashTable A)
        → HasRoom t
        → insert key memory (suc fuel) a t
          ≡ (place (magnitude (key a)) a t.size 0 t >>= λ u. some (pos 0, u))
    unfolding insert
    insert_roomy a t v =
        let full : (t.total == t.size) ≡ false = ground (arith, v.room) in
        rw (full, insert) (rw (v.fits, insert) refl)

    pub insert-Stores :
        (a : A) (t : HashTable A)
        → IsSound t
        → HasRoom t
        → magnitude (key a) + t.size ≤ 2 ^ 31
        → Returns
            (insert key memory (suc fuel) a t)
            (λ r. (r.0 ≡ pos 0) × Stores a t r.1 × (r.1.size ≡ t.size) × (r.1.percent ≡ t.percent))
    insert-Stores a t s v small = rw (insert_roomy a t v) (
        Returns-bind (place (magnitude (key a)) a t.size 0 t) _ (Placed t a) _
          (λ u h.
            let (w, same, kept) = Placed-Stores t u a s (HasRoom-HasSlot v) h in
            (refl, w, same, kept))
          (place_free (magnitude (key a)) a t (HasRoom-HasSlot v) small))

    -- The pointers of `l` are stored as well.
    pub record Refills (l : List (Option A)) (t t' : HashTable A) : Type 0 where
      pub sound : IsSound t'
      pub size : t'.size ≡ t.size
      pub percent : t'.percent ≡ t.percent
      pub total : t'.total ≡ t.total + occupied l
      pub kept : (b : A) → Holds t b → Holds t' b
      pub moved : (p : ℕ) (b : A) → get_or l p none ≡ some b → Holds t' b

    reinsert_lem :
        (s : ℕ) (l : List (Option A)) (t : HashTable A)
        → IsSound t
        → s * 2 ≤ t.size
        → t.total + occupied l < s
        → ((p : ℕ) (b : A) → get_or l p none ≡ some b → magnitude (key b) + t.size ≤ 2 ^ 31)
        → Returns (reinsert (insert key memory (suc fuel)) l t) (Refills l t)
    unfolding reinsert
    reinsert_lem s [] t sound size few fit = record {
      sound = sound;
      size = refl;
      percent = refl;
      total = omega arith;
      kept = λ b h. h;
      moved = λ p b e. cc;
    }
    reinsert_lem s (none ∷ l) t sound size few fit =
        Returns-map (reinsert (insert key memory (suc fuel)) l t) (Refills l t)
          (Refills (none ∷ l) t)
          (λ t' h. record {
            sound = h.sound;
            size = h.size;
            percent = h.percent;
            total = h.total;
            kept = h.kept;
            moved = λ p b e. past l t' p b h.moved e;
          })
          (reinsert_lem s l t sound size few (λ p b e. fit (suc p) b e))
    reinsert_lem s (some a ∷ l) t sound size few fit =
        let fits : ltb t.percent ((t.total + 1) * 100 / t.size) ≡ false =
          half_full (t.total + 1) t.size t.percent (omega arith) sound.half in
        let room : HasRoom t = record {
          table = sound.table;
          sized = sound.sized;
          room = omega arith;
          fits = fits;
        } in
        Returns-bind (insert key memory (suc fuel) a t) _ _ (Refills (some a ∷ l) t)
          (λ r h.
            Returns-map (reinsert (insert key memory (suc fuel)) l r.1) (Refills l r.1)
              (Refills (some a ∷ l) t)
              (λ t' g. record {
                sound = g.sound;
                size = g.size ∙ h.2;
                percent = g.percent ∙ h.3;
                total = omega (arith, g.total, h.1.total);
                kept = λ b held. g.kept b (h.1.others b held);
                moved = λ p b e. first a l t' p b (g.kept a h.1.here) g.moved e;
              })
              (reinsert_lem s l r.1 h.1.sound (omega (arith, h.2)) (omega (arith, h.1.total))
                (λ p b e. omega (arith, fit (suc p) b e, h.2))))
          (insert-Stores a t sound room (fit 0 a refl))

    -- `htable_rehash` to a size of more than twice the number of pointers.
    pub rehash_lem :
        (can : Bool) (s size : ℕ) (t : HashTable A)
        → IsSound t
        → t.total < s
        → s * 2 ≤ size
        → KeysFit key size t
        → Returns (rehash (insert key memory (suc fuel)) can size t) (λ r.
          (r.1 ≡ t)
          ⊎ Refills t.table (record t { size = size; total = 0; table = replicate size none }) r.1)
    unfolding rehash
    rehash_lem false s size t sound few room fit = inl refl
    rehash_lem true s size t sound few room fit =
        Returns-bind (reinsert (insert key memory (suc fuel)) t.table _) _ _ _ (λ u h. inr h)
          (reinsert_lem s t.table _
            (record {
              table = record { slots = omega arith; counted = sym (occupied-replicate A size) };
              sized = length-replicate size none;
              half = sound.half;
            })
            room (omega (arith, sound.table.counted))
            (λ p b e. fit b (p, omega (arith, in_slots t.table p b e, sound.sized), e)))
