-- ===== src/Family/Adopt.antt =====
-- `family_adopt` on lists of children.
use native.Mathlib.Decide.{ℕ_discrete}
use mathlib.Core.Path.{subst}
use mathlib.Core.List.{reverse, reverse_aux, reverse_aux-eq}
use spoon_microkernel.Prelude.{
  ℕ, zero, suc, ◌≤◌, ◌≡◌, ◌≢◌, refl, sym, ◌∙◌, Option, none, some, List, [], ◌∷◌, ◌++◌, length,
  update, update_self, update_ne, All, All-left, All-right, All-append, All-map, Fresh, Distinct,
  Returns, Returns-map, Returns-bind, arith,
}
use spoon_microkernel.Links.{write_at}
use spoon_microkernel.Links.Linked.{first, Linked, Linked-prev, Linked-next, turn_back, first-Fresh}
use spoon_microkernel.Links.Splice.{Linked-first}
use spoon_microkernel.Family.{Family, adopt_one, adopt_loop, family_adopt}
use spoon_microkernel.Family.Kids.{Kids, IsFamily, Outside, Kids-same, All-update, apart}
use spoon_microkernel.Family.Add.{All-both}

-- The links `m` are yet to be adopted from `dead`.
record Orphans (f : Family) (dead : ℕ) (m : List ℕ) : Type 0 where
  before : Option ℕ
  linked : Linked f.sibling_prev f.sibling_next before m none
  distinct : Distinct m
  parents : All (λ c. f.parent c ≡ some dead) m

module _ (step dead : ℕ) (differ : step ≢ dead) where
  -- `adopt_one`, where the children of the new parent are `l`.
  abbrev adopted : (t : ℕ) → List ℕ → Family → Family
  adopted t l f = record {
    object = f.object;
    parent = update f.parent t (some step);
    child = update f.child step (some t);
    sibling_prev = write_at (first l none) (some t) (update f.sibling_prev t none);
    sibling_next = update f.sibling_next t (first l none);
  }

  adopt_one-eq :
      (f : Family) (t : ℕ) (l : List ℕ) → Kids f step l → adopt_one step t f ≡ adopted t l f
  unfolding adopt_one
  adopt_one-eq f t l k = rw k.eldest refl

  -- The first of the orphans becomes the first child, and the others wait.
  module _ (f : Family) (t : ℕ) (m l : List ℕ) (o : Orphans f dead (t ∷ m))
      (k : Kids f step l) where
    strangers : All (λ c. Fresh c l) (t ∷ m)
    strangers = apart f dead step (t ∷ m) l (λ e. differ (sym e)) o.parents k.parents

    adopted-Kids : Kids (adopted t l f) step (t ∷ l)
    adopted-Kids = record {
      eldest = update_self f.child step (some t);
      linked = (
        first-Fresh (update f.sibling_prev t none) l (some t) t strangers.0
            ∙ update_self f.sibling_prev t none,
        update_self f.sibling_next t (first l none),
        Linked-next (write_at (first l none) (some t) (update f.sibling_prev t none)) f.sibling_next
            (some t) l none t (first l none) strangers.0
            (turn_back (update f.sibling_prev t none) f.sibling_next none l none (some t) k.distinct
              (Linked-prev f.sibling_prev f.sibling_next none l none t none strangers.0 k.linked)),
      );
      distinct = (strangers.0, k.distinct);
      parents = (
        update_self f.parent t (some step),
        All-update f.parent t (some step) (some step) l strangers.0 k.parents,
      );
    }

    adopted-Orphans : Orphans (adopted t l f) dead m
    adopted-Orphans = record {
      before = some t;
      linked =
          Linked-next (write_at (first l none) (some t) (update f.sibling_prev t none))
            f.sibling_next (some t) m none t (first l none) o.distinct.0
            (Linked-first (update f.sibling_prev t none) f.sibling_next (some t) m l none (some t)
              strangers.1
              (Linked-prev f.sibling_prev f.sibling_next (some t) m none t none o.distinct.0
                o.linked.2));
      distinct = o.distinct.1;
      parents = All-update f.parent t (some step) (some dead) m o.distinct.0 o.parents.1;
    }

    adopted-Outside : Outside (t ∷ l) f (adopted t l f)
    adopted-Outside c far =
        let apart_t = λ (e : t ≡ c). far.0 (sym e) in
        (
          update_ne f.parent (some step) apart_t,
          first-Fresh (update f.sibling_prev t none) l (some t) c far.1
              ∙ update_ne f.sibling_prev none apart_t,
          update_ne f.sibling_next (first l none) apart_t,
        )

  -- What the loop makes of the orphans `m`.
  record Adopted (m l : List ℕ) (f f' : Family) : Type 0 where
    kids : Kids f' step (reverse_aux m l)
    child : (q : ℕ) → step ≢ q → f'.child q ≡ f.child q
    object : f'.object ≡ f.object
    others : Outside (m ++ l) f f'

  adopt_loop_lem :
      (fuel : ℕ) (m l : List ℕ) (f : Family)
      → length m ≤ fuel
      → Orphans f dead m
      → Kids f step l
      → Returns (adopt_loop fuel step (first m none) f) (Adopted m l f)
  unfolding adopt_loop
  adopt_loop_lem zero [] l f enough o k = record {
    kids = k;
    child = λ q _. refl;
    object = refl;
    others = λ c _. (refl, refl, refl);
  }
  adopt_loop_lem (suc fuel) [] l f enough o k = record {
    kids = k;
    child = λ q _. refl;
    object = refl;
    others = λ c _. (refl, refl, refl);
  }
  adopt_loop_lem zero (t ∷ m) l f enough o k = absurd (omega arith)
  adopt_loop_lem (suc fuel) (t ∷ m) l f enough o k = rw o.linked.1 (
      rw (adopt_one-eq f t l k) (
        Returns-map (adopt_loop fuel step (first m none) (adopted t l f))
          (Adopted m (t ∷ l) (adopted t l f)) (Adopted (t ∷ m) l f)
          (λ f' h. record {
            kids = h.kids;
            child = λ q ne. h.child q ne ∙ update_ne f.child (some t) ne;
            object = h.object;
            others = λ c far.
                let near =
                  adopted-Outside f t m l o k c (far.0, All-right (λ d. c ≢ d) m l far.1) in
                let late = h.others c (
                  All-append (λ d. c ≢ d) m (t ∷ l) (All-left (λ d. c ≢ d) m l far.1)
                    (far.0, All-right (λ d. c ≢ d) m l far.1)) in
                (late.0 ∙ near.0, late.1 ∙ near.1, late.2 ∙ near.2);
          })
          (adopt_loop_lem fuel m (t ∷ l) (adopted t l f) (omega arith) (adopted-Orphans f t m l o k)
            (adopted-Kids f t m l o k))))

Adopted-reverse :
    (step dead : ℕ) (differ : step ≢ dead) (m l : List ℕ) (f f' : Family)
    → Adopted step dead differ m l f f'
    → Kids f' step (reverse m ++ l)
Adopted-reverse step dead differ m l f f' h = subst (Kids f' step) (reverse_aux-eq m l) h.kids

module _ (f : Family) (kids : ℕ → List ℕ) (step dead : ℕ) (all : IsFamily f kids)
    (differ : step ≢ dead) where
  abbrev family_of : List ℕ → ℕ → List ℕ
  family_of l = update (update kids step l) dead []

  -- Behind the loop the one link loses its first child.
  bereft :
      (f' : Family)
      → Adopted step dead differ (kids dead) (kids step) f f'
      → IsFamily
          (record f' { child = update f'.child dead none })
          (family_of (reverse (kids dead) ++ kids step))
  bereft f' h q =
      let grown = Adopted-reverse step dead differ (kids dead) (kids step) f f' h in
      elim (ℕ_discrete dead q) [
        | yes same ↦
            subst
              (λ r.
                Kids (record f' { child = update f'.child dead none }) r
                  (family_of (reverse (kids dead) ++ kids step) r))
              same
              (rw (update_self (update kids step (reverse (kids dead) ++ kids step)) dead [])
                (record {
                  eldest = update_self f'.child dead none;
                  linked = tt;
                  distinct = tt;
                  parents = tt;
                }))
        | no other ↦
            rw (update_ne (update kids step (reverse (kids dead) ++ kids step)) [] other)
              (elim (ℕ_discrete step q) [
                | yes same ↦
                    subst
                      (λ r.
                        Kids (record f' { child = update f'.child dead none }) r
                          (update kids step (reverse (kids dead) ++ kids step) r))
                      same
                      (rw (update_self kids step (reverse (kids dead) ++ kids step)) (record {
                        eldest = update_ne f'.child none (λ e. differ (sym e)) ∙ grown.eldest;
                        linked = grown.linked;
                        distinct = grown.distinct;
                        parents = grown.parents;
                      }))
                | no apart_q ↦ rw (update_ne kids (reverse (kids dead) ++ kids step) apart_q) (
                    Kids-same f (record f' { child = update f'.child dead none }) q
                      (kids dead ++ kids step) (kids q)
                      (update_ne f'.child none other ∙ h.child q apart_q) h.others
                      (far q other apart_q) (all q))
              ])
      ]
    where
      far : (q : ℕ) → dead ≢ q → step ≢ q → All (λ c. Fresh c (kids dead ++ kids step)) (kids q)
      far q a b =
          All-map (λ c. Fresh c (kids dead) × Fresh c (kids step))
            (λ c. Fresh c (kids dead ++ kids step)) (kids q)
            (λ c h. All-append (λ d. c ≢ d) (kids dead) (kids step) h.0 h.1)
            (All-both (λ c. Fresh c (kids dead)) (λ c. Fresh c (kids step)) (kids q)
              (apart f q dead (kids q) (kids dead) (λ e. a (sym e)) (all q).parents
                (all dead).parents)
              (apart f q step (kids q) (kids step) (λ e. b (sym e)) (all q).parents
                (all step).parents))

-- `family_adopt` makes the children of one link the first children of another, the youngest first, and
-- leaves the one without children; every other list of children is as it was. As many rounds as there
-- are children to adopt are enough.
pub family_adopt_lem :
    (f : Family) (kids : ℕ → List ℕ) (fuel step dead : ℕ)
    → IsFamily f kids
    → step ≢ dead
    → length (kids dead) ≤ fuel
    → Returns (family_adopt fuel step dead f) (λ f'.
      IsFamily f' (update (update kids step (reverse (kids dead) ++ kids step)) dead [])
      × (f'.object ≡ f.object))
unfolding family_adopt
family_adopt_lem f kids fuel step dead all differ enough =
    let orphans : Orphans f dead (kids dead) = record {
      before = none;
      linked = (all dead).linked;
      distinct = (all dead).distinct;
      parents = (all dead).parents;
    } in
    rw (all dead).eldest (
      Returns-bind (adopt_loop fuel step (first (kids dead) none) f) _
        (Adopted step dead differ (kids dead) (kids step) f)
        (λ f'.
          IsFamily f' (update (update kids step (reverse (kids dead) ++ kids step)) dead [])
          × (f'.object ≡ f.object))
        (λ f' h. (bereft f kids step dead all differ f' h, h.object))
        (adopt_loop_lem step dead differ fuel (kids dead) (kids step) f enough orphans (all step)))
