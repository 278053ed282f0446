-- ===== src/Family/Add.antt =====
-- `family_add_child` and `family_add_sibling` on lists of children.
use native.Mathlib.Decide.{ℕ_discrete}
use mathlib.Core.Path.{subst, fun_ext}
use spoon_microkernel.Prelude.{
  ℕ, ◌≡◌, ◌≢◌, refl, sym, ap, ◌∙◌, Option, none, some, List, [], ◌∷◌, update, update_self,
  update_ne, All, All-map, Fresh, arith,
}
use spoon_microkernel.Links.{write_at}
use spoon_microkernel.Links.Linked.{first, Linked-next, turn_back, first-Fresh}
use spoon_microkernel.Family.{Family, family_add_child}
use spoon_microkernel.Family.Kids.{
  Kids, IsFamily, IsAlone, Outside, Kids-same, All-update, parent-Fresh, apart,
}

-- One list of children is another, and all the others are spared.
pub family_frame :
    (f f' : Family) (kids : ℕ → List ℕ) (p : ℕ) (l touched : List ℕ)
    → IsFamily f kids
    → Kids f' p l
    → ((q : ℕ) → p ≢ q → f'.child q ≡ f.child q)
    → Outside touched f f'
    → ((q : ℕ) → p ≢ q → All (λ c. Fresh c touched) (kids q))
    → IsFamily f' (update kids p l)
family_frame f f' kids p l touched all here child out far q = elim (ℕ_discrete p q) [
  | yes same ↦ subst (λ r. Kids f' r (update kids p l r)) same (rw (update_self kids p l) here)
  | no differ ↦
      rw (update_ne kids l differ)
        (Kids-same f f' q touched (kids q) (child q differ) out (far q differ) (all q))
]

-- A link that is alone is no child.
pub alone-Fresh :
    (f : Family) (x q : ℕ) (l : List ℕ) → IsAlone f x → All (λ c. f.parent c ≡ some q) l → Fresh x l
alone-Fresh f x q l a h = parent-Fresh f x q l (λ e. none≢some (sym a.parent ∙ e)) h
  where
    none≢some : none ≢ some q
    none≢some e = cc

pub Fresh-other : (x : ℕ) (l : List ℕ) → Fresh x l → All (λ c. c ≢ x) l
Fresh-other x l h = All-map (λ c. x ≢ c) (λ c. c ≢ x) l (λ c far e. far (sym e)) h

pub All-both : (P Q : ℕ → Type 0) (l : List ℕ) → All P l → All Q l → All (λ c. P c × Q c) l
All-both P Q [] hp hq = tt
All-both P Q (c ∷ l) hp hq = ((hp.0, hq.0), All-both P Q l hp.1 hq.1)

module _ (f : Family) (p x : ℕ) (l : List ℕ) (k : Kids f p l) (a : IsAlone f x) where
  -- `family_add_child`, where the first child is that of the list.
  abbrev added : Family
  added = record {
    object = f.object;
    parent = update f.parent x (some p);
    child = update f.child p (some x);
    sibling_prev = write_at (first l none) (some x) f.sibling_prev;
    sibling_next = update f.sibling_next x (first l none);
  }

  out : Fresh x l
  out = alone-Fresh f x p l a k.parents

  added-Kids : Kids added p (x ∷ l)
  added-Kids = record {
    eldest = update_self f.child p (some x);
    linked = (
      first-Fresh f.sibling_prev l (some x) x out ∙ a.sibling_prev,
      update_self f.sibling_next x (first l none),
      Linked-next (write_at (first l none) (some x) f.sibling_prev) f.sibling_next (some x) l none x
          (first l none) out
          (turn_back f.sibling_prev f.sibling_next none l none (some x) k.distinct k.linked),
    );
    distinct = (out, k.distinct);
    parents =
        (update_self f.parent x (some p), All-update f.parent x (some p) (some p) l out k.parents);
  }

  added-Outside : Outside (x ∷ l) f added
  added-Outside c far =
      let apart_x = λ (e : x ≡ c). far.0 (sym e) in
      (
        update_ne f.parent (some p) apart_x,
        first-Fresh f.sibling_prev l (some x) c far.1,
        update_ne f.sibling_next (first l none) apart_x,
      )

module _ (f : Family) (p x : ℕ) where
  -- A link alone has no sibling, so that the write to it is skipped where there is no child.
  pointless : f.sibling_next x ≡ none → (c : ℕ) → f.sibling_next c ≡ update f.sibling_next x none c
  pointless e c = ground (arith, e)

  added_lem :
      (l : List ℕ) (k : Kids f p l) (a : IsAlone f x) → family_add_child p x f ≡ added f p x l k a
  unfolding family_add_child
  added_lem [] k a = rw k.eldest (
      ap
        (λ (n : ℕ → Option ℕ). record {
          object = f.object;
          parent = update f.parent x (some p);
          child = update f.child p (some x);
          sibling_prev = f.sibling_prev;
          sibling_next = n;
        })
        (fun_ext (pointless a.sibling_next)))
  added_lem (c ∷ l) k a = rw k.eldest refl

-- `family_add_child` makes a link that was alone the first child.
pub family_add_child_lem :
    (f : Family) (kids : ℕ → List ℕ) (p x : ℕ)
    → IsFamily f kids
    → IsAlone f x
    → IsFamily (family_add_child p x f) (update kids p (x ∷ kids p))
      × ((family_add_child p x f).object ≡ f.object)
family_add_child_lem f kids p x all a =
    let k = all p in
    rw (added_lem f p x (kids p) k a) (
      (
        family_frame f (added f p x (kids p) k a) kids p (x ∷ kids p) (x ∷ kids p) all
            (added-Kids f p x (kids p) k a) (λ q differ. update_ne f.child (some x) differ)
            (added-Outside f p x (kids p) k a)
            (λ q differ.
              All-both (λ c. c ≢ x) (λ c. Fresh c (kids p)) (kids q)
                (Fresh-other x (kids q) (alone-Fresh f x q (kids q) a (all q).parents))
                (apart f q p (kids q) (kids p) (λ e. differ (sym e)) (all q).parents k.parents)),
        refl,
      ))
