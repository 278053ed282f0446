-- ===== src/Links/Splice.antt =====
-- What taking a link out of a list, and putting one in, make of the two fields.
use spoon_microkernel.Prelude.{
  ℕ, ◌≢◌, refl, sym, ◌∙◌, Option, none, some, List, [], ◌∷◌, ◌++◌, update, update_self, All,
  All-left, All-right, All-map, Fresh, Distinct, Distinct-left, Distinct-right, Distinct-middle,
  Distinct-apart,
}
use spoon_microkernel.Links.{write_at}
use spoon_microkernel.Links.Linked.{
  first, last, Linked, Linked-append, Linked-left, Linked-right, Linked-same, Linked-prev,
  Linked-next, turn_back, turn_on, last-Fresh, first-Fresh,
}

module _ (prev next : ℕ → Option ℕ) (before : Option ℕ) where
  -- A write behind the first link of one list leaves another list alone.
  pub Linked-first :
      (xs ys : List ℕ) (after v : Option ℕ)
      → All (λ x. Fresh x ys) xs
      → Linked prev next before xs after
      → Linked (write_at (first ys none) v prev) next before xs after
  Linked-first xs ys after v apart h =
      Linked-same prev next (write_at (first ys none) v prev) next before xs after
        (All-map (λ x. Fresh x ys) _ xs (λ x out. (first-Fresh prev ys v x out, refl)) apart) h

  pub Linked-last :
      (xs ys : List ℕ) (after v : Option ℕ)
      → All (λ y. Fresh y xs) ys
      → Linked prev next before ys after
      → Linked prev (write_at (last none xs) v next) before ys after
  Linked-last xs ys after v apart h =
      Linked-same prev next prev (write_at (last none xs) v next) before ys after
        (All-map (λ y. Fresh y xs) _ ys (λ y out. (refl, last-Fresh next xs v y out)) apart) h

-- The links of two lists that are apart, the other way round.
Fresh-swap : (xs ys : List ℕ) → All (λ x. Fresh x ys) xs → All (λ y. Fresh y xs) ys
Fresh-swap xs [] h = tt
Fresh-swap xs (y ∷ ys) h = (
  All-map (λ x. Fresh x (y ∷ ys)) (λ x. y ≢ x) xs (λ x out e. out.0 (sym e)) h,
  Fresh-swap xs ys (All-map (λ x. Fresh x (y ∷ ys)) (λ x. Fresh x ys) xs (λ x out. out.1) h),
)

module _ (prev next : ℕ → Option ℕ) (xs ys : List ℕ) (x : ℕ) where
  -- What taking `x` out of a list writes.
  pub unlink_lem :
      Distinct (xs ++ x ∷ ys)
      → Linked prev next none (xs ++ x ∷ ys) none
      → Linked
          (update (write_at (first ys none) (last none xs) prev) x none)
          (update (write_at (last none xs) (first ys none) next) x none)
          none
          (xs ++ ys)
          none
  unlink_lem d h =
      let left = Linked-left prev next none xs (x ∷ ys) none h in
      let right = Linked-right prev next none xs (x ∷ ys) none h in
      let apart : All (λ z. Fresh z ys) xs =
        All-map (λ z. Fresh z (x ∷ ys)) (λ z. Fresh z ys) xs (λ z out. out.1)
          (Distinct-apart xs (x ∷ ys) d) in
      let rest = Distinct-right xs (x ∷ ys) d in
      let start = Distinct-left xs (x ∷ ys) d in
      let prev' = write_at (first ys none) (last none xs) prev in
      let next' = write_at (last none xs) (first ys none) next in
      let out = Distinct-middle xs x ys d in
      let xs_on = turn_on prev next none xs (some x) (first ys none) start left in
      let xs_in = Linked-first prev next' none xs ys (first ys none) (last none xs) apart xs_on in
      let ys_on = turn_back prev next (some x) ys none (last none xs) rest.1 right.2 in
      let ys_in =
        Linked-last prev' next (last none xs) xs ys none (first ys none) (Fresh-swap xs ys apart)
          ys_on in
      Linked-append (update prev' x none) (update next' x none) none xs ys none
        (Linked-next (update prev' x none) next' none xs (first ys none) x none out
          (Linked-prev prev' next' none xs (first ys none) x none out xs_in))
        (Linked-next (update prev' x none) next' (last none xs) ys none x none rest.0
          (Linked-prev prev' next' (last none xs) ys none x none rest.0 ys_in))

  -- What putting `x` into a list writes.
  pub link_lem :
      Distinct (xs ++ ys)
      → Fresh x (xs ++ ys)
      → Linked prev next none (xs ++ ys) none
      → Linked
          (write_at (first ys none) (some x) (update prev x (last none xs)))
          (write_at (last none xs) (some x) (update next x (first ys none)))
          none
          (xs ++ x ∷ ys)
          none
  link_lem d out h =
      let left = Linked-left prev next none xs ys none h in
      let right = Linked-right prev next none xs ys none h in
      let apart = Distinct-apart xs ys d in
      let out_xs = All-left (λ q. x ≢ q) xs ys out in
      let out_ys = All-right (λ q. x ≢ q) xs ys out in
      let prev' = update prev x (last none xs) in
      let next' = update next x (first ys none) in
      let left' =
        Linked-next prev' next none xs (first ys none) x (first ys none) out_xs
          (Linked-prev prev next none xs (first ys none) x (last none xs) out_xs left) in
      let right' =
        Linked-next prev' next (last none xs) ys none x (first ys none) out_ys
          (Linked-prev prev next (last none xs) ys none x (last none xs) out_ys right) in
      let prev'' = write_at (first ys none) (some x) prev' in
      let next'' = write_at (last none xs) (some x) next' in
      let xs_on =
        turn_on prev' next' none xs (first ys none) (some x) (Distinct-left xs ys d) left' in
      let ys_on =
        turn_back prev' next' (last none xs) ys none (some x) (Distinct-right xs ys d) right' in
      Linked-append prev'' next'' none xs (x ∷ ys) none
        (Linked-first prev' next'' none xs ys (some x) (some x) apart xs_on)
        (
          first-Fresh prev' ys (some x) x out_ys ∙ update_self prev x (last none xs),
          last-Fresh next' xs (some x) x out_xs ∙ update_self next x (first ys none),
          Linked-last prev'' next' (some x) xs ys none (some x) (Fresh-swap xs ys apart) ys_on,
        )
