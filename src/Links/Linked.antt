-- ===== src/Links/Linked.antt =====
-- Links of two fields `prev` and `next` that form a list.
use spoon_microkernel.Prelude.{
  ℕ, ◌≡◌, refl, sym, ◌∙◌, Option, none, some, List, [], ◌∷◌, ◌++◌, update, update_self, update_ne,
  All, Fresh, Distinct,
}
use spoon_microkernel.Links.{write_at}

-- The first link of a list, or what comes behind it.
abbrev pub first : List ℕ → Option ℕ → Option ℕ
first [] after = after
first (x ∷ l) after = some x

-- The last link of a list, or what comes before it.
abbrev pub last : Option ℕ → List ℕ → Option ℕ
last before [] = before
last before (x ∷ l) = last (some x) l

-- The links `l` point at each other in this order, the first of them back at `before` and the last
-- on at `after`.
abbrev pub Linked :
    (prev next : ℕ → Option ℕ) (before : Option ℕ) → List ℕ → (after : Option ℕ) → Type 0
Linked prev next before [] after = Unit
Linked prev next before (x ∷ l) after =
    (prev x ≡ before) × (next x ≡ first l after) × Linked prev next (some x) l after

pub Linked-append :
    (prev next : ℕ → Option ℕ) (before : Option ℕ) (xs ys : List ℕ) (after : Option ℕ)
    → Linked prev next before xs (first ys after)
    → Linked prev next (last before xs) ys after
    → Linked prev next before (xs ++ ys) after
Linked-append prev next before [] ys after hx hy = hy
Linked-append prev next before (x ∷ []) ys after hx hy = (hx.0, hx.1, hy)
Linked-append prev next before (x ∷ y ∷ xs) ys after hx hy =
    (hx.0, hx.1, Linked-append prev next (some x) (y ∷ xs) ys after hx.2 hy)

pub Linked-left :
    (prev next : ℕ → Option ℕ) (before : Option ℕ) (xs ys : List ℕ) (after : Option ℕ)
    → Linked prev next before (xs ++ ys) after
    → Linked prev next before xs (first ys after)
Linked-left prev next before [] ys after h = tt
Linked-left prev next before (x ∷ []) ys after h = (h.0, h.1, tt)
Linked-left prev next before (x ∷ y ∷ xs) ys after h =
    (h.0, h.1, Linked-left prev next (some x) (y ∷ xs) ys after h.2)

pub Linked-right :
    (prev next : ℕ → Option ℕ) (before : Option ℕ) (xs ys : List ℕ) (after : Option ℕ)
    → Linked prev next before (xs ++ ys) after
    → Linked prev next (last before xs) ys after
Linked-right prev next before [] ys after h = h
Linked-right prev next before (x ∷ xs) ys after h = Linked-right prev next (some x) xs ys after h.2

-- Links that no write touches stay linked.
pub Linked-same :
    (prev next prev' next' : ℕ → Option ℕ) (before : Option ℕ) (l : List ℕ) (after : Option ℕ)
    → All (λ x. (prev' x ≡ prev x) × (next' x ≡ next x)) l
    → Linked prev next before l after
    → Linked prev' next' before l after
Linked-same prev next prev' next' before [] after same h = tt
Linked-same prev next prev' next' before (x ∷ l) after same h =
    (same.0.0 ∙ h.0, same.0.1 ∙ h.1, Linked-same prev next prev' next' (some x) l after same.1 h.2)

pub update-Fresh :
    (field : ℕ → Option ℕ) (p : ℕ) (v : Option ℕ) (l : List ℕ)
    → Fresh p l
    → All (λ x. update field p v x ≡ field x) l
update-Fresh field p v [] out = tt
update-Fresh field p v (x ∷ l) out = (update_ne field v out.0, update-Fresh field p v l out.1)

pub Linked-prev :
    (prev next : ℕ → Option ℕ) (before : Option ℕ) (l : List ℕ) (after : Option ℕ) (p : ℕ)
    (v : Option ℕ)
    → Fresh p l
    → Linked prev next before l after
    → Linked (update prev p v) next before l after
Linked-prev prev next before [] after p v out h = tt
Linked-prev prev next before (x ∷ l) after p v out h =
    (update_ne prev v out.0 ∙ h.0, h.1, Linked-prev prev next (some x) l after p v out.1 h.2)

pub Linked-next :
    (prev next : ℕ → Option ℕ) (before : Option ℕ) (l : List ℕ) (after : Option ℕ) (p : ℕ)
    (v : Option ℕ)
    → Fresh p l
    → Linked prev next before l after
    → Linked prev (update next p v) before l after
Linked-next prev next before [] after p v out h = tt
Linked-next prev next before (x ∷ l) after p v out h =
    (h.0, update_ne next v out.0 ∙ h.1, Linked-next prev next (some x) l after p v out.1 h.2)

-- The first link turns back to something else.
pub turn_back :
    (prev next : ℕ → Option ℕ) (before : Option ℕ) (l : List ℕ) (after v : Option ℕ)
    → Distinct l
    → Linked prev next before l after
    → Linked (write_at (first l none) v prev) next v l after
turn_back prev next before [] after v d h = tt
turn_back prev next before (x ∷ l) after v d h =
    (update_self prev x v, h.1, Linked-prev prev next (some x) l after x v d.0 h.2)

-- The last link goes on to something else.
pub turn_on :
    (prev next : ℕ → Option ℕ) (before : Option ℕ) (l : List ℕ) (after v : Option ℕ)
    → Distinct l
    → Linked prev next before l after
    → Linked prev (write_at (last none l) v next) before l v
turn_on prev next before [] after v d h = tt
turn_on prev next before (x ∷ []) after v d h = (h.0, update_self next x v, tt)
turn_on prev next before (x ∷ y ∷ l) after v d h =
    let out : write_at (last (some y) l) v next x ≡ next x = kept y l d.0 in
    (h.0, out ∙ h.1, turn_on prev next (some x) (y ∷ l) after v d.1 h.2)
  where
    kept : (y : ℕ) (l : List ℕ) → Fresh x (y ∷ l) → write_at (last (some y) l) v next x ≡ next x
    kept y [] out = update_ne next v (λ e. out.0 (sym e))
    kept y (z ∷ l) out = kept z l out.1

-- A write to the last link of a list, or to no link, leaves the others alone.
pub last-Fresh :
    (field : ℕ → Option ℕ) (xs : List ℕ) (v : Option ℕ) (p : ℕ)
    → Fresh p xs
    → write_at (last none xs) v field p ≡ field p
last-Fresh field [] v p out = refl
last-Fresh field (x ∷ []) v p out = update_ne field v (λ e. out.0 (sym e))
last-Fresh field (x ∷ y ∷ xs) v p out = last-Fresh field (y ∷ xs) v p out.1

pub first-Fresh :
    (field : ℕ → Option ℕ) (ys : List ℕ) (v : Option ℕ) (p : ℕ)
    → Fresh p ys
    → write_at (first ys none) v field p ≡ field p
first-Fresh field [] v p out = refl
first-Fresh field (y ∷ ys) v p out = update_ne field v (λ e. out.0 (sym e))
