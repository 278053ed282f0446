-- ===== src/Family/Kids.antt =====
-- The children of a link, as a list.
use mathlib.Core.Option.{some-injective}
use spoon_microkernel.Prelude.{
  ℕ, ◌≡◌, ◌≢◌, sym, ap, ◌∙◌, Option, none, some, List, [], ◌∷◌, update, update_ne, All, All-map,
  Fresh, Distinct,
}
use spoon_microkernel.Links.Linked.{first, Linked, Linked-same}
use spoon_microkernel.Family.{Family}

-- `l` are the children of `p`, from the first to the last.
pub record Kids (f : Family) (p : ℕ) (l : List ℕ) : Type 0 where
  pub eldest : f.child p ≡ first l none
  pub linked : Linked f.sibling_prev f.sibling_next none l none
  pub distinct : Distinct l
  pub parents : All (λ c. f.parent c ≡ some p) l

-- Each link has its children in a list.
abbrev pub IsFamily : Family → (ℕ → List ℕ) → Type 0
IsFamily f kids = (p : ℕ) → Kids f p (kids p)

-- A link outside every list.
pub record IsAlone (f : Family) (x : ℕ) : Type 0 where
  pub parent : f.parent x ≡ none
  pub sibling_prev : f.sibling_prev x ≡ none
  pub sibling_next : f.sibling_next x ≡ none

-- The links that are not in the list have the same parents and siblings.
abbrev pub Outside : List ℕ → Family → Family → Type 0
Outside l f f' =
    (c : ℕ)
    → Fresh c l
    → (f'.parent c ≡ f.parent c)
      × (f'.sibling_prev c ≡ f.sibling_prev c)
      × (f'.sibling_next c ≡ f.sibling_next c)

-- A link with another parent is none of the children.
pub parent-Fresh :
    (f : Family) (c q : ℕ) (l : List ℕ)
    → f.parent c ≢ some q
    → All (λ d. f.parent d ≡ some q) l
    → Fresh c l
parent-Fresh f c q [] other h = tt
parent-Fresh f c q (d ∷ l) other h =
    (λ e. other (ap f.parent e ∙ h.0), parent-Fresh f c q l other h.1)

pub apart :
    (f : Family) (p q : ℕ) (l m : List ℕ)
    → p ≢ q
    → All (λ c. f.parent c ≡ some p) l
    → All (λ d. f.parent d ≡ some q) m
    → All (λ c. Fresh c m) l
apart f p q l m differ hl hm =
    All-map (λ c. f.parent c ≡ some p) (λ c. Fresh c m) l
      (λ c e. parent-Fresh f c q m (λ other. differ (some-injective p q (sym e ∙ other))) hm) hl

-- Children that a change spares.
pub Kids-same :
    (f f' : Family) (p : ℕ) (l m : List ℕ)
    → f'.child p ≡ f.child p
    → Outside l f f'
    → All (λ c. Fresh c l) m
    → Kids f p m
    → Kids f' p m
Kids-same f f' p l m same out far k = record {
  eldest = same ∙ k.eldest;
  linked =
      Linked-same f.sibling_prev f.sibling_next f'.sibling_prev f'.sibling_next none m none
        (All-map (λ c. Fresh c l) _ m (λ c h. ((out c h).1, (out c h).2)) far) k.linked;
  distinct = k.distinct;
  parents = parents m far k.parents;
}
  where
    parents :
        (m : List ℕ)
        → All (λ c. Fresh c l) m
        → All (λ c. f.parent c ≡ some p) m
        → All (λ c. f'.parent c ≡ some p) m
    parents [] far h = tt
    parents (c ∷ m) far h = ((out c far.0).0 ∙ h.0, parents m far.1 h.1)

-- The same for links that have a place of their own.
pub All-update :
    (field : ℕ → Option ℕ) (p : ℕ) (v w : Option ℕ) (l : List ℕ)
    → Fresh p l
    → All (λ c. field c ≡ w) l
    → All (λ c. update field p v c ≡ w) l
All-update field p v w [] out h = tt
All-update field p v w (c ∷ l) out h =
    (update_ne field v out.0 ∙ h.0, All-update field p v w l out.1 h.1)
