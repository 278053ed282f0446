-- ===== src/Family/Sibling.antt =====
-- `family_add_sibling` on lists of children.
use mathlib.Core.Path.{subst, fun_ext}
use mathlib.Core.List.{append_assoc}
use spoon_microkernel.Prelude.{
  ℕ, ◌≡◌, ◌≢◌, refl, sym, ◌∙◌, Option, none, some, List, [], ◌∷◌, ◌++◌, update, update_self,
  update_ne, All-left, All-right, All-append, Fresh, Distinct, arith,
}
use spoon_microkernel.Links.{write_at}
use spoon_microkernel.Links.Linked.{first, last, Linked, Linked-right, last-Fresh, first-Fresh}
use spoon_microkernel.Links.Splice.{link_lem}
use spoon_microkernel.Links.Laws.{Distinct-insert, last-append}
use spoon_microkernel.Family.{Family, family_add_sibling}
use spoon_microkernel.Family.Kids.{Kids, IsFamily, IsAlone, Outside, All-update, apart}
use spoon_microkernel.Family.Add.{family_frame, alone-Fresh, Fresh-other, All-both}

first-append :
    (xs : List ℕ) (b : ℕ) (ys zs : List ℕ) → first (xs ++ b ∷ ys) none ≡ first (xs ++ b ∷ zs) none
first-append [] b ys zs = refl
first-append (x ∷ xs) b ys zs = refl

-- Writes to two places, in either order.
write_comm :
    (field : ℕ → Option ℕ) (x : ℕ) (ys : List ℕ) (v w : Option ℕ)
    → Fresh x ys
    → update (write_at (first ys none) v field) x w ≡ write_at (first ys none) v (update field x w)
write_comm field x [] v w out = refl
write_comm field x (y ∷ ys) v w out = fun_ext (λ q. swapped q out.0)
  where
    swapped : (q : ℕ) → x ≢ y → update (update field y v) x w q ≡ update (update field x w) y v q
    swapped q differ = ground arith

module _ (f : Family) (p : ℕ) (xs : List ℕ) (bro x : ℕ) (ys : List ℕ)
    (k : Kids f p (xs ++ bro ∷ ys)) (a : IsAlone f x) where
  -- The siblings up to the brother.
  abbrev elder : List ℕ
  elder = xs ++ bro ∷ []

  abbrev joined : Family
  joined = record {
    object = f.object;
    parent = update f.parent x (some p);
    child = f.child;
    sibling_prev = write_at (first ys none) (some x) (update f.sibling_prev x (last none elder));
    sibling_next = write_at (last none elder) (some x) (update f.sibling_next x (first ys none));
  }

  out : Fresh x (xs ++ bro ∷ ys)
  out = alone-Fresh f x p (xs ++ bro ∷ ys) a k.parents

  out_ys : Fresh x ys
  out_ys = (All-right (λ q. x ≢ q) xs (bro ∷ ys) out).1

  joined_lem : family_add_sibling bro x f ≡ joined
  unfolding family_add_sibling
  joined_lem =
      let right = Linked-right f.sibling_prev f.sibling_next none xs (bro ∷ ys) none k.linked in
      let on : f.sibling_next bro ≡ first ys none = right.1 in
      let up : f.parent bro ≡ some p =
        (All-right (λ c. f.parent c ≡ some p) xs (bro ∷ ys) k.parents).0 in
      rw (on, up)
        (rw (last-append none xs bro, write_comm f.sibling_prev x ys (some x) (some bro) out_ys)
          refl)

  regroup : (zs : List ℕ) → xs ++ bro ∷ zs ≡ elder ++ zs
  regroup zs = sym (append_assoc xs (bro ∷ []) zs)

  joined-Kids : Kids joined p (xs ++ bro ∷ x ∷ ys)
  joined-Kids =
      let linked =
        link_lem f.sibling_prev f.sibling_next elder ys x
          (subst (λ l. Distinct l) (regroup ys) k.distinct) (subst (Fresh x) (regroup ys) out)
          (subst (λ l. Linked f.sibling_prev f.sibling_next none l none) (regroup ys) k.linked) in
      let others = All-update f.parent x (some p) (some p) (xs ++ bro ∷ ys) out k.parents in
      record {
        eldest = k.eldest ∙ first-append xs bro ys (x ∷ ys);
        linked =
            subst (λ l. Linked joined.sibling_prev joined.sibling_next none l none)
              (sym (regroup (x ∷ ys))) linked;
        distinct =
            subst (λ l. Distinct l) (sym (regroup (x ∷ ys)))
              (Distinct-insert elder ys x (subst (λ l. Distinct l) (regroup ys) k.distinct)
                (subst (Fresh x) (regroup ys) out));
        parents =
            let upper = All-left (λ c. joined.parent c ≡ some p) xs (bro ∷ ys) others in
            let lower = All-right (λ c. joined.parent c ≡ some p) xs (bro ∷ ys) others in
            All-append (λ c. joined.parent c ≡ some p) xs (bro ∷ x ∷ ys) upper
              (lower.0, (update_self f.parent x (some p), lower.1));
      }

  joined-Outside : Outside (x ∷ xs ++ bro ∷ ys) f joined
  joined-Outside c far =
      let apart_x = λ (e : x ≡ c). far.0 (sym e) in
      let lower = All-right (λ d. c ≢ d) xs (bro ∷ ys) far.1 in
      let upper = All-left (λ d. c ≢ d) xs (bro ∷ ys) far.1 in
      (
        update_ne f.parent (some p) apart_x,
        first-Fresh (update f.sibling_prev x (last none elder)) ys (some x) c lower.1
            ∙ update_ne f.sibling_prev (last none elder) apart_x,
        last-Fresh (update f.sibling_next x (first ys none)) elder (some x) c
              (All-append (λ d. c ≢ d) xs (bro ∷ []) upper (lower.0, tt))
            ∙ update_ne f.sibling_next (first ys none) apart_x,
      )

-- `family_add_sibling` puts a link that was alone behind its brother, among the children of the same
-- parent; every other list of children is as it was.
pub family_add_sibling_lem :
    (f : Family) (kids : ℕ → List ℕ) (p : ℕ) (xs : List ℕ) (bro x : ℕ) (ys : List ℕ)
    → IsFamily f kids
    → kids p ≡ xs ++ bro ∷ ys
    → IsAlone f x
    → IsFamily (family_add_sibling bro x f) (update kids p (xs ++ bro ∷ x ∷ ys))
family_add_sibling_lem f kids p xs bro x ys all at a =
    let k = subst (Kids f p) at (all p) in
    rw (joined_lem f p xs bro x ys k a) (
      family_frame f (joined f p xs bro x ys k a) kids p (xs ++ bro ∷ x ∷ ys) (x ∷ xs ++ bro ∷ ys)
        all (joined-Kids f p xs bro x ys k a) (λ q differ. refl)
        (joined-Outside f p xs bro x ys k a)
        (λ q differ.
          All-both (λ c. c ≢ x) (λ c. Fresh c (xs ++ bro ∷ ys)) (kids q)
            (Fresh-other x (kids q) (alone-Fresh f x q (kids q) a (all q).parents))
            (apart f q p (kids q) (xs ++ bro ∷ ys) (λ e. differ (sym e)) (all q).parents
              k.parents)))
