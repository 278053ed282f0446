-- ===== src/Family/Remove.antt =====
-- `family_remove` on lists of children.
use native.Mathlib.Decide.{ℕ_discrete}
use mathlib.Core.Path.{subst}
use spoon_microkernel.Prelude.{
  ℕ, ◌≡◌, ◌≢◌, refl, sym, ◌∙◌, Option, none, some, List, [], ◌∷◌, ◌++◌, update, update_self,
  update_ne, All-left, All-right, All-append, Distinct, Distinct-right, Distinct-middle, arith,
}
use spoon_microkernel.Links.{write_at}
use spoon_microkernel.Links.Linked.{first, last, Linked-right, last-Fresh, first-Fresh}
use spoon_microkernel.Links.Splice.{unlink_lem}
use spoon_microkernel.Links.Laws.{Distinct-join}
use spoon_microkernel.Family.{Family, family_remove, drop_first}
use spoon_microkernel.Family.Kids.{Kids, IsFamily, IsAlone, Outside, Kids-same, All-update, apart}

module _ (f : Family) (p : ℕ) (xs : List ℕ) (x : ℕ) (ys : List ℕ)
    (k : Kids f p (xs ++ x ∷ ys)) where
  abbrev child' : ℕ → Option ℕ
  child' = drop_first x (some p) (first ys none) f.child

  abbrev removed : Family
  removed = record {
    object = f.object;
    parent = update f.parent x none;
    child = child';
    sibling_prev = update (write_at (first ys none) (last none xs) f.sibling_prev) x none;
    sibling_next = update (write_at (last none xs) (first ys none) f.sibling_next) x none;
  }

  removed_lem : family_remove x f ≡ removed
  unfolding family_remove
  removed_lem =
      let right = Linked-right f.sibling_prev f.sibling_next none xs (x ∷ ys) none k.linked in
      let up : f.parent x ≡ some p =
        (All-right (λ c. f.parent c ≡ some p) xs (x ∷ ys) k.parents).0 in
      let back : f.sibling_prev x ≡ last none xs = right.0 in
      let on : f.sibling_next x ≡ first ys none = right.1 in
      let out =
        last-Fresh f.sibling_next xs (first ys none) x (Distinct-middle xs x ys k.distinct) in
      rw (up, back, on) (rw (out, on) refl)

  -- The other children of the parent, and nothing else, are below it.
  child_lem : child' p ≡ first (xs ++ ys) none
  child_lem = eldest xs k.eldest k.distinct
    where
      eldest :
          (xs : List ℕ)
          → f.child p ≡ first (xs ++ x ∷ ys) none
          → Distinct (xs ++ x ∷ ys)
          → child' p ≡ first (xs ++ ys) none
      eldest [] e d = ground (arith, e)
      eldest (z ∷ xs) e d =
          let other : z ≢ x = (All-right (λ q. z ≢ q) xs (x ∷ ys) d.0).0 in ground (arith, e, other)

  child_ne : (q : ℕ) → p ≢ q → child' q ≡ f.child q
  child_ne q differ = ground arith

  removed-Outside : Outside (xs ++ x ∷ ys) f removed
  removed-Outside c out =
      let mine = All-right (λ z. c ≢ z) xs (x ∷ ys) out in
      let far = λ (e : x ≡ c). mine.0 (sym e) in
      (
        update_ne f.parent none far,
        update_ne (write_at (first ys none) (last none xs) f.sibling_prev) none far
            ∙ first-Fresh f.sibling_prev ys (last none xs) c mine.1,
        update_ne (write_at (last none xs) (first ys none) f.sibling_next) none far
            ∙ last-Fresh f.sibling_next xs (first ys none) c
                (All-left (λ z. c ≢ z) xs (x ∷ ys) out),
      )

  removed-Kids : Kids removed p (xs ++ ys)
  removed-Kids =
      let parents = k.parents in
      let d = k.distinct in
      record {
        eldest = child_lem;
        linked = unlink_lem f.sibling_prev f.sibling_next xs ys x d k.linked;
        distinct = Distinct-join xs x ys d;
        parents =
            All-append (λ c. update f.parent x none c ≡ some p) xs ys
              (All-update f.parent x none (some p) xs (Distinct-middle xs x ys d)
                (All-left (λ c. f.parent c ≡ some p) xs (x ∷ ys) parents))
              (All-update f.parent x none (some p) ys (Distinct-right xs (x ∷ ys) d).0
                (All-right (λ c. f.parent c ≡ some p) xs (x ∷ ys) parents).1);
      }

-- `family_remove` takes a link out from among its siblings and leaves it alone, with its own children;
-- every other list of children is as it was.
pub family_remove_lem :
    (f : Family) (kids : ℕ → List ℕ) (p : ℕ) (xs : List ℕ) (x : ℕ) (ys : List ℕ)
    → IsFamily f kids
    → kids p ≡ xs ++ x ∷ ys
    → IsFamily (family_remove x f) (update kids p (xs ++ ys))
      × IsAlone (family_remove x f) x
      × ((family_remove x f).object ≡ f.object)
family_remove_lem f kids p xs x ys all at =
    let k = subst (Kids f p) at (all p) in
    rw (removed_lem f p xs x ys k) (
      (λ q. elim (ℕ_discrete p q) [
        | yes same ↦
            subst (λ r. Kids (removed f p xs x ys k) r (update kids p (xs ++ ys) r)) same
              (rw (update_self kids p (xs ++ ys)) (removed-Kids f p xs x ys k))
        | no differ ↦ rw (update_ne kids (xs ++ ys) differ) (
            Kids-same f (removed f p xs x ys k) q (xs ++ x ∷ ys) (kids q)
              (child_ne f p xs x ys k q differ) (removed-Outside f p xs x ys k)
              (apart f q p (kids q) (xs ++ x ∷ ys) (λ e. differ (sym e)) (all q).parents k.parents)
              (all q))
      ]),
      record {
        parent = update_self f.parent x none;
        sibling_prev = update_self (write_at (first ys none) (last none xs) f.sibling_prev) x none;
        sibling_next = update_self (write_at (last none xs) (first ys none) f.sibling_next) x none;
      },
      refl,
    )
