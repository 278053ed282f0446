-- ===== src/Family/Leave.antt =====
-- `family_adopt` by the parent and then `family_remove`: a link leaves the tree.
use native.Mathlib.Decide.{ℕ_discrete}
use mathlib.Core.Path.{subst}
use mathlib.Core.List.{reverse, append_assoc}
use spoon_microkernel.Prelude.{
  ℕ, ◌≤◌, ◌≡◌, ◌≢◌, sym, ap, ◌∙◌, some, List, [], ◌∷◌, ◌++◌, length, update, update_self, update_ne,
  All-right, Returns, Returns-map,
}
use spoon_microkernel.Family.{Family, family_adopt, family_remove}
use spoon_microkernel.Family.Kids.{Kids, IsFamily, IsAlone}
use spoon_microkernel.Family.Adopt.{family_adopt_lem}
use spoon_microkernel.Family.Remove.{family_remove_lem}

-- The children as two changes of them leave them.
kept_kids :
    (kids : ℕ → List ℕ) (p x : ℕ) (a b : List ℕ) (q : ℕ)
    → update (update (update kids p a) x []) p b q ≡ update (update kids x []) p b q
kept_kids kids p x a b q = elim (ℕ_discrete p q) [
  | yes same ↦
      update_at same (update (update kids p a) x []) ∙ sym (update_at same (update kids x []))
  | no other ↦
      update_ne (update (update kids p a) x []) b other
      ∙ before (ℕ_discrete x q) other
      ∙ sym (update_ne (update kids x []) b other)
]
  where
    update_at : p ≡ q → (f : ℕ → List ℕ) → update f p b q ≡ b
    update_at same f = ap (update f p b) (sym same) ∙ update_self f p b

    before : Dec (x ≡ q) → p ≢ q → update (update kids p a) x [] q ≡ update kids x [] q
    before (yes same) other =
        ap (update (update kids p a) x []) (sym same)
        ∙ update_self (update kids p a) x []
        ∙ sym (update_self kids x [])
        ∙ ap (update kids x []) same
    before (no differ) other =
        update_ne (update kids p a) [] differ
        ∙ update_ne kids a other
        ∙ sym (update_ne kids [] differ)

-- The children of each once `x` has left `p`, and `p` has those of `x`.
abbrev pub left_kids : (kids : ℕ → List ℕ) (p x : ℕ) (elder younger : List ℕ) → ℕ → List ℕ
left_kids kids p x elder younger =
    update (update kids x []) p (reverse (kids x) ++ elder ++ younger)

module _ (f : Family) (kids : ℕ → List ℕ) (p x : ℕ) (elder younger : List ℕ) (all : IsFamily f kids)
    (at : kids p ≡ elder ++ x ∷ younger) where
  pub parent_at : f.parent x ≡ some p
  parent_at =
      (All-right (λ c. f.parent c ≡ some p) elder (x ∷ younger)
        (subst (Kids f p) at (all p)).parents).0

  -- The link is alone, its children are the first of its parent, the youngest first, and the rest is as
  -- it was.
  pub leave_lem :
      (fuel : ℕ)
      → p ≢ x
      → length (kids x) ≤ fuel
      → Returns (family_adopt fuel p x f) (λ f'.
        IsFamily (family_remove x f') (left_kids kids p x elder younger)
        × IsAlone (family_remove x f') x
        × ((family_remove x f').object ≡ f.object))
  leave_lem fuel apart enough =
      let given = reverse (kids x) ++ kids p in
      let adopted = update (update kids p given) x [] in
      let here : adopted p ≡ (reverse (kids x) ++ elder) ++ x ∷ younger =
        update_ne (update kids p given) [] (λ e. apart (sym e))
        ∙ update_self kids p given
        ∙ ap (λ (l : List ℕ). reverse (kids x) ++ l) at
        ∙ sym (append_assoc (reverse (kids x)) elder (x ∷ younger)) in
      Returns-map (family_adopt fuel p x f) (λ f'. IsFamily f' adopted × (f'.object ≡ f.object)) _
        (λ f' (family, same).
          let (rest, alone, objects) =
            family_remove_lem f' adopted p (reverse (kids x) ++ elder) x younger family here in
          (
            λ q.
                subst (Kids (family_remove x f') q)
                  (kept_kids kids p x given ((reverse (kids x) ++ elder) ++ younger) q) (rest q),
            alone,
            objects ∙ same,
          ))
        (family_adopt_lem f kids fuel p x all apart enough)
