-- ===== src/Links/Laws.antt =====
-- The operations on linked lists, on the lists of their links.
use mathlib.Core.Path.{subst}
use mathlib.Core.List.{append_assoc}
use spoon_microkernel.Prelude.{
  ℕ, ◌≡◌, ◌≢◌, refl, sym, ◌∙◌, Option, none, some, List, [], ◌∷◌, ◌++◌, update, update_self,
  update_ne, All-left, All-right, Fresh, Distinct, Distinct-middle, arith,
}
use spoon_microkernel.Links.{Lists, write_at, list_remove, list_insert_before, list_insert_after}
use spoon_microkernel.Links.Linked.{first, last, Linked, Linked-right, last-Fresh, first-Fresh}
use spoon_microkernel.Links.Splice.{unlink_lem, link_lem}

-- The links of the list `l` form a list, in this order.
abbrev pub IsList : Lists → List ℕ → Type 0
IsList h l = Distinct l × Linked h.prev h.next none l none

-- All but the links of the list are as they were, and all objects.
pub record Spares (l : List ℕ) (h h' : Lists) : Type 0 where
  pub objects : (q : ℕ) → h'.object q ≡ h.object q
  pub others : (q : ℕ) → Fresh q l → (h'.prev q ≡ h.prev q) × (h'.next q ≡ h.next q)

object_kept : (object : ℕ → ℕ) (x q : ℕ) → update object x (object x) q ≡ object q
object_kept object x q = ground arith

-- What stands before and behind a link.
pub neighbours :
    (h : Lists) (xs : List ℕ) (x : ℕ) (ys : List ℕ)
    → Linked h.prev h.next none (xs ++ x ∷ ys) none
    → (h.prev x ≡ last none xs) × (h.next x ≡ first ys none)
neighbours h xs x ys linked =
    let right = Linked-right h.prev h.next none xs (x ∷ ys) none linked in (right.0, right.1)

list_remove-eq :
    (h : Lists) (xs : List ℕ) (x : ℕ) (ys : List ℕ)
    → Distinct (xs ++ x ∷ ys)
    → Linked h.prev h.next none (xs ++ x ∷ ys) none
    → list_remove x h ≡ record {
      object = update h.object x (h.object x);
      prev = update (write_at (first ys none) (last none xs) h.prev) x none;
      next = update (write_at (last none xs) (first ys none) h.next) x none;
    }
unfolding list_remove
list_remove-eq h xs x ys d linked =
    let (back, on) = neighbours h xs x ys linked in
    let out = last-Fresh h.next xs (first ys none) x (Distinct-middle xs x ys d) in
    rw (back, on) (rw (out, on) refl)

pub Distinct-join :
    (xs : List ℕ) (x : ℕ) (ys : List ℕ) → Distinct (xs ++ x ∷ ys) → Distinct (xs ++ ys)
Distinct-join [] x ys d = d.1
Distinct-join (z ∷ xs) x ys d = (Fresh-join z xs x ys d.0, Distinct-join xs x ys d.1)
  where
    Fresh-join :
        (p : ℕ) (xs : List ℕ) (x : ℕ) (ys : List ℕ) → Fresh p (xs ++ x ∷ ys) → Fresh p (xs ++ ys)
    Fresh-join p [] x ys h = h.1
    Fresh-join p (z ∷ xs) x ys h = (h.0, Fresh-join p xs x ys h.1)

-- `list_remove` takes a link out of its list, and leaves it alone with NULL on both sides; nothing else
-- changes.
pub list_remove_lem :
    (h : Lists) (xs : List ℕ) (x : ℕ) (ys : List ℕ)
    → IsList h (xs ++ x ∷ ys)
    → IsList (list_remove x h) (xs ++ ys)
      × ((list_remove x h).prev x ≡ none)
      × ((list_remove x h).next x ≡ none)
      × Spares (xs ++ x ∷ ys) h (list_remove x h)
list_remove_lem h xs x ys (d, linked) = rw (list_remove-eq h xs x ys d linked) (
  (Distinct-join xs x ys d, unlink_lem h.prev h.next xs ys x d linked),
  update_self (write_at (first ys none) (last none xs) h.prev) x none,
  update_self (write_at (last none xs) (first ys none) h.next) x none,
  record {
    objects = object_kept h.object x;
    others = λ q out.
        let mine = All-right (λ z. q ≢ z) xs (x ∷ ys) out in
        let far = λ (e : x ≡ q). mine.0 (sym e) in
        (
          update_ne (write_at (first ys none) (last none xs) h.prev) none far
              ∙ first-Fresh h.prev ys (last none xs) q mine.1,
          update_ne (write_at (last none xs) (first ys none) h.next) none far
              ∙ last-Fresh h.next xs (first ys none) q (All-left (λ z. q ≢ z) xs (x ∷ ys) out),
        );
  },
)

pub Distinct-insert :
    (xs ys : List ℕ) (x : ℕ) → Distinct (xs ++ ys) → Fresh x (xs ++ ys) → Distinct (xs ++ x ∷ ys)
Distinct-insert [] ys x d out = (out, d)
Distinct-insert (z ∷ xs) ys x d out =
    (Fresh-insert z xs ys x d.0 (λ e. out.0 (sym e)), Distinct-insert xs ys x d.1 out.1)
  where
    Fresh-insert :
        (p : ℕ) (xs ys : List ℕ) (x : ℕ) → Fresh p (xs ++ ys) → p ≢ x → Fresh p (xs ++ x ∷ ys)
    Fresh-insert p [] ys x h apart = (apart, h)
    Fresh-insert p (z ∷ xs) ys x h apart = (h.0, Fresh-insert p xs ys x h.1 apart)

-- What is written where `l` is put between `xs` and `ys`.
abbrev between : (xs ys : List ℕ) (l : ℕ) → Lists → Lists
between xs ys l h = record h {
  prev = write_at (first ys none) (some l) (update h.prev l (last none xs));
  next = write_at (last none xs) (some l) (update h.next l (first ys none));
}

between_lem :
    (h : Lists) (xs ys : List ℕ) (l : ℕ)
    → IsList h (xs ++ ys)
    → Fresh l (xs ++ ys)
    → IsList (between xs ys l h) (xs ++ l ∷ ys) × Spares (xs ++ l ∷ ys) h (between xs ys l h)
between_lem h xs ys l (d, linked) out = (
  (Distinct-insert xs ys l d out, link_lem h.prev h.next xs ys l d out linked),
  record {
    objects = λ q. refl;
    others = λ q far.
        let mine = All-right (λ z. q ≢ z) xs (l ∷ ys) far in
        let apart = λ (e : l ≡ q). mine.0 (sym e) in
        (
          first-Fresh (update h.prev l (last none xs)) ys (some l) q mine.1
              ∙ update_ne h.prev (last none xs) apart,
          last-Fresh (update h.next l (first ys none)) xs (some l) q
                (All-left (λ z. q ≢ z) xs (l ∷ ys) far)
              ∙ update_ne h.next (first ys none) apart,
        );
  },
)

pub last-append : (before : Option ℕ) (xs : List ℕ) (p : ℕ) → last before (xs ++ p ∷ []) ≡ some p
last-append before [] p = refl
last-append before (x ∷ xs) p = last-append (some x) xs p

list_insert_after-eq :
    (h : Lists) (xs : List ℕ) (position : ℕ) (ys : List ℕ) (l : ℕ)
    → Linked h.prev h.next none (xs ++ position ∷ ys) none
    → l ≢ position
    → list_insert_after position l h ≡ between (xs ++ position ∷ []) ys l h
unfolding list_insert_after
list_insert_after-eq h xs position ys l linked apart =
    let (back, on) = neighbours h xs position ys linked in
    let read : update (update h.next l (h.next position)) position (some l) l ≡ h.next position =
      update_ne (update h.next l (h.next position)) (some l) (λ e. apart (sym e))
      ∙ update_self h.next l (h.next position) in
    rw read (rw (on, last-append none xs position) refl)

list_insert_before-eq :
    (h : Lists) (xs : List ℕ) (position : ℕ) (ys : List ℕ) (l : ℕ)
    → Linked h.prev h.next none (xs ++ position ∷ ys) none
    → l ≢ position
    → list_insert_before position l h ≡ between xs (position ∷ ys) l h
unfolding list_insert_before
list_insert_before-eq h xs position ys l linked apart =
    let (back, on) = neighbours h xs position ys linked in
    let read : update (update h.prev l (h.prev position)) position (some l) l ≡ h.prev position =
      update_ne (update h.prev l (h.prev position)) (some l) (λ e. apart (sym e))
      ∙ update_self h.prev l (h.prev position) in
    rw read (rw back refl)

-- `list_insertAfter` puts a link that is not in the list behind the position.
pub list_insert_after_lem :
    (h : Lists) (xs : List ℕ) (position : ℕ) (ys : List ℕ) (l : ℕ)
    → IsList h (xs ++ position ∷ ys)
    → Fresh l (xs ++ position ∷ ys)
    → IsList (list_insert_after position l h) (xs ++ position ∷ l ∷ ys)
      × Spares (xs ++ position ∷ l ∷ ys) h (list_insert_after position l h)
list_insert_after_lem h xs position ys l (d, linked) out =
    let apart = (All-right (λ z. l ≢ z) xs (position ∷ ys) out).0 in
    let regroup = sym (append_assoc xs (position ∷ []) ys) in
    let grown = sym (append_assoc xs (position ∷ []) (l ∷ ys)) in
    rw (list_insert_after-eq h xs position ys l linked apart) (
      rw grown (
        between_lem h (xs ++ position ∷ []) ys l (subst (IsList h) regroup (d, linked))
          (subst (Fresh l) regroup out)))

-- `list_insertBefore` puts a link that is not in the list before the position.
pub list_insert_before_lem :
    (h : Lists) (xs : List ℕ) (position : ℕ) (ys : List ℕ) (l : ℕ)
    → IsList h (xs ++ position ∷ ys)
    → Fresh l (xs ++ position ∷ ys)
    → IsList (list_insert_before position l h) (xs ++ l ∷ position ∷ ys)
      × Spares (xs ++ l ∷ position ∷ ys) h (list_insert_before position l h)
list_insert_before_lem h xs position ys l (d, linked) out =
    let apart = (All-right (λ z. l ≢ z) xs (position ∷ ys) out).0 in
    rw (list_insert_before-eq h xs position ys l linked apart)
      (between_lem h xs (position ∷ ys) l (d, linked) out)
