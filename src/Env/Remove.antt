-- ===== src/Env/Remove.antt =====
-- `remove_environment`, and what the failures of `set_environment` leave.
use spoon_microkernel.Prelude.{
  ℕ, zero, suc, ◌-◌, ◌<◌, ◌≡◌, ◌≢◌, ◌⊎◌, refl, ap, sym, ◌∙◌, inl, inr, true, false, Bool-cases,
  Option, none, some, List, [], ◌∷◌, length, take, remove_at, close_gap, close_gap_lem, ◌==◌,
  if◌then◌else◌, arith,
}
use spoon_microkernel.Prelude.Int.{pos, minus_one}
use spoon_microkernel.Strings.Compare.{same_string, same_string_iff}
use spoon_microkernel.Env.{
  EnvironInfo, Environment, Answers, name_length, infos, infos_of, find_name, set_environment,
  store_info, remove_environment,
}
use spoon_microkernel.Env.Lookup.{value, first_named, take-all, value-remove_at}
use spoon_microkernel.Env.Kept.{AreInfos-remove_at}
use spoon_microkernel.Env.Stored.{IsEnvironment, variable, find_name_lem, Stored, stored_lem}

length-remove_at {ℓ} :
    {A : Type ℓ} (i : ℕ) (l : List A) → i < length l → suc (length (remove_at i l)) ≡ length l
length-remove_at i [] lt = absurd (omega arith)
length-remove_at zero (x ∷ l) lt = refl
length-remove_at (suc i) (x ∷ l) lt = ap suc (length-remove_at i l (omega arith))

-- An empty array is freed.
infos_left :
    (count : ℕ) (l : List EnvironInfo)
    → count ≡ length l
    → infos_of (if count == 0 then none else some l) ≡ l
infos_left zero [] e = refl
infos_left zero (x ∷ l) e = absurd (omega arith)
infos_left (suc count) l e =
    let some_left : (suc count == 0) ≡ false = ground arith in rw some_left refl

module _ {p : Environment} (h : IsEnvironment p) (name : List ℕ) where
  abbrev key : List ℕ
  key = take name_length name

  left :
      find_name name p ≡ first_named key (infos p)
      → find_name name p < p.environment_count
      → take (p.environment_count - 1) (close_gap (find_name name p) p.environment_count (infos p))
        ≡ remove_at (first_named key (infos p)) (infos p)
  left at lt =
      close_gap_lem (find_name name p) p.environment_count (infos p) lt (omega (arith, h.counted))
      ∙ ap (λ (i : ℕ). remove_at i (take p.environment_count (infos p))) at
      ∙ ap (remove_at (first_named key (infos p)))
          (take-all p.environment_count (infos p) (omega (arith, h.counted)))

  removed :
      (p' : Environment)
      → p'.environment_count ≡ p.environment_count - 1
      → infos p' ≡ remove_at (first_named key (infos p)) (infos p)
      → first_named key (infos p) < length (infos p)
      → Stored key none p p'
  removed p' fewer e below =
      stored_lem key none h
        (record {
          counted = omega (
            arith,
            fewer,
            h.counted,
            ap length e,
            length-remove_at (first_named key (infos p)) (infos p) below,
          );
          each = rw e (AreInfos-remove_at key (infos p) below h.each);
        })
        (λ other. rw e (value-remove_at key (take name_length other) (infos p) h.each below))

  absent : find_name name p ≡ p.environment_count → remove_environment name p ≡ (minus_one, p)
  unfolding remove_environment
  absent e =
      let last : (find_name name p == p.environment_count) ≡ true = ground arith in
      rw (last, remove_environment) refl

  present :
      find_name name p ≡ first_named key (infos p)
      → find_name name p < p.environment_count
      → remove_environment name p ≡ (
        pos 0,
        record {
          environment =
              if p.environment_count - 1 == 0
              then none
              else some (remove_at (first_named key (infos p)) (infos p));
          environment_count = p.environment_count - 1;
        },
      )
  unfolding remove_environment
  present at lt =
      let found : (find_name name p == p.environment_count) ≡ false = ground arith in
      rw (found, remove_environment) (rw (left at lt) refl)

  -- `remove_environment` fails exactly if there is no such variable. `get_environment` does not find it
  -- afterwards, and reads for every other name what it did.
  pub remove_environment_lem :
      ((remove_environment name p).0 ≡ elim (variable name p) [ none ↦ minus_one | some _ ↦ pos 0 ])
      × Stored (take name_length name) none p (remove_environment name p).1
  remove_environment_lem = elim (find_name_lem h name) [
    | inl (e, f) ↦ rw (absent e) (rw f (refl, unchanged f))
    | inr (lt, at, f) ↦ rw (present at lt) (
        rw f (
          refl,
          removed _ refl
              (infos_left (p.environment_count - 1)
                (remove_at (first_named key (infos p)) (infos p))
                (omega (
                  arith,
                  h.counted,
                  length-remove_at (first_named key (infos p)) (infos p)
                      (omega (arith, lt, at, h.counted)),
                )))
              (omega (arith, lt, at, h.counted)),
        ))
  ]
    where
      unchanged : variable name p ≡ none → Stored (take name_length name) none p p
      unchanged f = stored_lem (take name_length name) none h h (λ other.
          elim (Bool-cases (same_string (take name_length name) (take name_length other))) [
            | inl same ↦ rw same (
                ap (λ s. value s (infos p))
                  (sym ((same_string_iff (take name_length name) (take name_length other)).0 same))
                ∙ f)
            | inr other_name ↦ rw other_name refl
          ])

-- Where `set_environment` fails, nothing has changed or the environment is empty.
set_environment-fails :
    (a : Answers) (name bytes : Option (List ℕ)) (size : ℕ) (p : Environment)
    → (set_environment a name bytes size p).0 ≢ pos 0
    → ((set_environment a name bytes size p).1 ≡ p)
      ⊎ (((set_environment a name bytes size p).1
            ≡ record { environment = none; environment_count = 0 })
          × (a.realloced ≡ none))
unfolding set_environment store_info
set_environment-fails a name none size p failed = inl refl
set_environment-fails a none (some bytes) size p failed = inl refl
set_environment-fails a (some name) (some bytes) size p failed = ground arith
