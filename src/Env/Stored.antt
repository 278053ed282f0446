-- ===== src/Env/Stored.antt =====
-- `get_environment` and `get_environment_size`: the variable that a name finds, and what a change of it
-- means to them.
use spoon_microkernel.Prelude.{
  ℕ, ◌<◌, ◌≡◌, ◌⊎◌, refl, ap, sym, ◌∙◌, inl, inr, true, false, Option, none, some, List, [], length,
  take, find_pos, ltb, ◌==◌, if◌then◌else◌, arith, Bool-cases,
}
use spoon_microkernel.Prelude.Int.{ℤ, pos, minus_one}
use spoon_microkernel.Strings.Compare.{same_string}
use spoon_microkernel.Env.{
  Environment, name_length, infos, is_named, find_name, no_info, info_at, get_environment,
  get_environment_size,
}
use spoon_microkernel.Env.Lookup.{value, first_named, AreInfos, find_pos-is_named, first_named_lem}

-- The array has `environment_count` elements in use, no two with the same name.
pub record IsEnvironment (p : Environment) : Type 0 where
  pub counted : p.environment_count ≡ length (infos p)
  pub each : AreInfos (infos p)

-- What `get_environment` answers for a variable, and the buffer's size.
abbrev pub answer : ℕ → Option (ℕ × List ℕ) → ℤ × List ℕ
answer limit none = (minus_one, [])
answer limit (some (size, bytes)) =
    let new_size = if ltb limit size then limit else size in (pos new_size, take new_size bytes)

-- The variable with a name.
abbrev pub variable : List ℕ → Environment → Option (ℕ × List ℕ)
variable name p = value (take name_length name) (infos p)

module _ {p : Environment} (h : IsEnvironment p) where
  -- The two outcomes of the loop that looks for a name.
  pub find_name_lem :
      (name : List ℕ)
      → ((find_name name p ≡ p.environment_count) × (variable name p ≡ none))
        ⊎ ((find_name name p < p.environment_count)
            × (find_name name p ≡ first_named (take name_length name) (infos p))
            × (variable name p
                ≡ some ((info_at (find_name name p) p).size, (info_at (find_name name p) p).bytes)))
  unfolding find_name
  find_name_lem name =
      let at : find_name name p ≡ first_named (take name_length name) (infos p) =
        ap (λ (n : ℕ). find_pos (is_named name) n (infos p)) h.counted
        ∙ find_pos-is_named name (infos p) h.each in
      elim (first_named_lem (take name_length name) (infos p) no_info) [
        | inl (e, f) ↦ inl (at ∙ e ∙ sym h.counted, f)
        | inr (e, f) ↦ inr (
          omega (arith, at, h.counted),
          at,
          f ∙ ap (λ (i : ℕ). some ((info_at i p).size, (info_at i p).bytes)) (sym at),
        )
      ]

  -- `get_environment` copies the bytes of the first variable with the name, as far as they fit, and
  -- returns their number, or returns -1 if there is no such variable.
  pub get_environment_lem :
      (name : List ℕ) (limit : ℕ) → get_environment name limit p ≡ answer limit (variable name p)
  unfolding get_environment
  get_environment_lem name limit = elim (find_name_lem name) [
    | inl (e, f) ↦ rw f (
        let last : (find_name name p == p.environment_count) ≡ true = ground arith in
        rw (last, get_environment) refl)
    | inr (lt, _, f) ↦ rw f (
        let found : (find_name name p == p.environment_count) ≡ false = ground arith in
        rw (found, get_environment) refl)
  ]

  pub get_environment_size_lem :
      (name : List ℕ)
      → get_environment_size name p
        ≡ elim (variable name p) [ none ↦ (minus_one, none) | some v ↦ (pos 0, some v.0) ]
  unfolding get_environment_size
  get_environment_size_lem name = elim (find_name_lem name) [
    | inl (e, f) ↦ rw f (
        let last : (find_name name p == p.environment_count) ≡ true = ground arith in
        rw (last, get_environment_size) refl)
    | inr (lt, _, f) ↦ rw f (
        let found : (find_name name p == p.environment_count) ≡ false = ground arith in
        rw (found, get_environment_size) refl)
  ]

-- A variable is stored: every other one is as it was, and so they are read.
pub record Stored (name : List ℕ) (v : Option (ℕ × List ℕ)) (p p' : Environment) : Type 0 where
  pub kept : IsEnvironment p'
  pub variables :
      (other : List ℕ)
      → variable other p'
        ≡ (if same_string name (take name_length other) then v else variable other p)
  pub reads :
      (other : List ℕ) (limit : ℕ)
      → get_environment other limit p' ≡ (
          if same_string name (take name_length other)
          then answer limit v
          else get_environment other limit p)

pub stored_lem :
    (name : List ℕ) (v : Option (ℕ × List ℕ)) {p p' : Environment}
    → IsEnvironment p
    → IsEnvironment p'
    → ((other : List ℕ)
        → variable other p'
          ≡ (if same_string name (take name_length other) then v else variable other p))
    → Stored name v p p'
stored_lem name v {p} {p'} h h' variables = record {
  kept = h';
  variables = variables;
  reads =
      λ other limit. reading other limit (Bool-cases (same_string name (take name_length other)));
}
  where
    reading :
        (other : List ℕ) (limit : ℕ)
        → (same_string name (take name_length other) ≡ true)
          ⊎ (same_string name (take name_length other) ≡ false)
        → get_environment other limit p' ≡ (
            if same_string name (take name_length other)
            then answer limit v
            else get_environment other limit p)
    reading other limit (inl same) =
        let at : variable other p' ≡ v = variables other ∙ rw same refl in
        get_environment_lem h' other limit ∙ ap (answer limit) at ∙ rw same refl
    reading other limit (inr apart) =
        let at : variable other p' ≡ variable other p = variables other ∙ rw apart refl in
        let before : get_environment other limit p' ≡ get_environment other limit p =
          get_environment_lem h' other limit
          ∙ ap (answer limit) at
          ∙ sym (get_environment_lem h other limit) in
        before ∙ rw apart refl
