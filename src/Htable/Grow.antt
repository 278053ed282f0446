-- ===== src/Htable/Grow.antt =====
-- `htable_insert` on any table with room: it may grow, and it needs at most one call of itself.
use spoon_microkernel.Prelude.{
  ℕ, suc, ◌+◌, ◌*◌, ◌/◌, ◌<◌, ◌≡◌, ◌⊎◌, inl, inr, refl, ◌∙◌, Bool, true, false, Bool-cases, Option,
  none, some, replicate, ltb, ◌==◌, Returns, Returns-map, Returns-bind, ◌>>=◌, ◌≤◌, ◌^◌, arith,
}
use spoon_microkernel.Prelude.Int.{ℤ, pos}
use spoon_microkernel.Htable.{HashTable, magnitude, place, insert, rehash}
use spoon_microkernel.Htable.Stores.{
  IsSound, KeysFit, Stores, Placed-Stores, Inserted, inserted_lem,
}
use spoon_microkernel.Htable.Insert.{HasSlot, Placed, place_free}
use spoon_microkernel.Htable.Refill.{insert-Stores, Refills, rehash_lem}

module _ {A : Type 0} where
  module _ (key : A → ℤ) (memory : ℕ → Bool) (fuel : ℕ) where
    -- The table that the pointer goes into, where `htable_insert` grows it.
    abbrev grown : HashTable A → Option (HashTable A)
    grown t =
        rehash (insert key memory (suc fuel)) (memory (t.size * 2)) (t.size * 2) t >>= λ r. some r.1

    insert_grows :
        (a : A) (t : HashTable A)
        → (t.total == t.size) ≡ false
        → ltb t.percent ((t.total + 1) * 100 / t.size) ≡ true
        → insert key memory (suc (suc fuel)) a t
          ≡ (grown t >>= λ u. place (magnitude (key a)) a u.size 0 u >>= λ u'. some (pos 0, u'))
    unfolding insert
    insert_grows a t room full = rw (room, insert) (rw (full, insert) refl)

    -- Behind the growth, whether there was memory for it or not.
    store_grown :
        (a : A) (t u : HashTable A)
        → IsSound t
        → t.total < t.size
        → magnitude (key a) + t.size * 2 ≤ 2 ^ 31
        → (u ≡ t)
          ⊎ Refills key memory fuel t.table
              (record t { size = t.size * 2; total = 0; table = replicate (t.size * 2) none })
              u
        → Returns (place (magnitude (key a)) a u.size 0 u) (Stores a t)
    store_grown a t u s few small (inl same) = rw same (
        let slot : HasSlot t = record { table = s.table; sized = s.sized; room = few } in
        Returns-map (place (magnitude (key a)) a t.size 0 t) (Placed t a) (Stores a t)
          (λ u' h. (Placed-Stores t u' a s slot h).0)
          (place_free (magnitude (key a)) a t slot (omega arith)))
    store_grown a t u s few small (inr h) =
        let slot : HasSlot u = record {
          table = h.sound.table;
          sized = h.sound.sized;
          room = omega (arith, h.total, h.size, s.table.counted);
        } in
        Returns-map (place (magnitude (key a)) a u.size 0 u) (Placed u a) (Stores a t)
          (λ u' put_in.
            let (w, same, _) = Placed-Stores u u' a h.sound slot put_in in
            record {
              sound = w.sound;
              total = omega (arith, w.total, h.total, s.table.counted);
              percent = w.percent ∙ h.percent;
              size = omega (arith, same, h.size);
              here = w.here;
              others = λ b held. w.others b (h.moved held.0 b held.2);
            })
          (place_free (magnitude (key a)) a u slot (omega (arith, h.size)))

-- `htable_insert` into a table with room that may be filled by half, where the keys stay below 2 ^ 31 by
-- twice the size of the table, returns 0, whether or not there is memory to grow; its calls of itself
-- go one deep. The table is then sound and holds one pointer more, and the new pointer and all that it
-- held before are found by the lookups that they match, of keys with the same bound.
pub insert_total :
    {A : Type 0} (key : A → ℤ) (memory : ℕ → Bool) (fuel : ℕ) (a : A) (t : HashTable A)
    → IsSound t
    → t.total < t.size
    → magnitude (key a) + t.size * 2 ≤ 2 ^ 31
    → KeysFit key (t.size * 2) t
    → Returns (insert key memory (suc (suc fuel)) a t) (Inserted a t)
insert_total {A} key memory fuel a t s few small fit =
    elim (Bool-cases (ltb t.percent ((t.total + 1) * 100 / t.size))) [
      | inr fits ↦
          Returns-map (insert key memory (suc (suc fuel)) a t) _ (Inserted a t)
            (λ r h. inserted_lem a t r h.0 h.1)
            (insert-Stores key memory (suc fuel) a t s
              (record { table = s.table; sized = s.sized; room = few; fits = fits }) (omega arith))
      | inl full ↦
          let room : (t.total == t.size) ≡ false = ground (arith, few) in
          rw (insert_grows key memory fuel a t room full) (
            Returns-bind (grown key memory fuel t) _
              (λ u.
                (u ≡ t)
                ⊎ Refills key memory fuel t.table
                    (record t { size = t.size * 2; total = 0; table = replicate (t.size * 2) none })
                    u)
              (Inserted a t)
              (λ u h.
                Returns-bind (place (magnitude (key a)) a u.size 0 u) _ (Stores a t) (Inserted a t)
                  (λ u' w. inserted_lem a t (pos 0, u') refl w)
                  (store_grown key memory fuel a t u s few small h))
              (Returns-bind
                (rehash (insert key memory (suc fuel)) (memory (t.size * 2)) (t.size * 2) t) _ _ _
                (λ r h. h)
                (rehash_lem key memory fuel (memory (t.size * 2)) t.size (t.size * 2) t s few
                  (omega arith) fit)))
    ]
