-- ===== src/Env/Clone.antt =====
-- `clone_environment`
use spoon_microkernel.Prelude.{
  ℕ, suc, ◌≡◌, refl, ap, sym, ◌∙◌, inl, inr, true, Bool-cases, Option, none, some, List, [], ◌∷◌,
  length, take, ◌==◌, if◌then◌else◌, arith,
}
use spoon_microkernel.Prelude.Int.{ℤ, pos}
use spoon_microkernel.Strings.{c_string}
use spoon_microkernel.Strings.Copy.{IsText}
use spoon_microkernel.Strings.Compare.{same_string, same_string_iff}
use spoon_microkernel.Env.{
  get_environment, EnvironInfo, Environment, Answers, name_length, infos, set_environment,
  clone_from, clone_environment, release_environment,
}
use spoon_microkernel.Env.Lookup.{value, AreInfos, IsInfo, take-all}
use spoon_microkernel.Env.Stored.{IsEnvironment, variable, answer, get_environment_lem}
use spoon_microkernel.Env.Set.{set_environment_lem}

c_string-IsText : (bytes : List ℕ) → IsText (c_string bytes)
unfolding IsText
c_string-IsText [] = tt
c_string-IsText (c ∷ bytes) = elim (Bool-cases (c == 0)) [
  | inl zero_byte ↦ rw zero_byte tt
  | inr more ↦ rw more (ground arith, c_string-IsText bytes)
]

-- The first of two values.
abbrev first_of : Option (ℕ × List ℕ) → Option (ℕ × List ℕ) → Option (ℕ × List ℕ)
first_of none w = w
first_of (some v) w = some v

clone_from-cons :
    (answers : ℕ → Answers) (i : ℕ) (e : EnvironInfo) (l : List EnvironInfo) (dest : Environment)
    → (set_environment (answers i) (some (c_string e.name)) (some e.bytes) e.size dest).0 ≡ pos 0
    → clone_from answers i (e ∷ l) dest
      ≡ clone_from answers
          (suc i)
          l
          (set_environment (answers i) (some (c_string e.name)) (some e.bytes) e.size dest).1
unfolding clone_from
clone_from-cons answers i e l dest stored = rw (stored, clone_from) refl

joins :
    (e : EnvironInfo) (l : List EnvironInfo) (k : List ℕ) (w o : Option (ℕ × List ℕ))
    → IsInfo e
    → value (c_string e.name) l ≡ none
    → w ≡ (if same_string (c_string e.name) k then some (e.size, take e.size e.bytes) else o)
    → first_of (value k l) w ≡ first_of (value k (e ∷ l)) o
unfolding value
joins e l k w o info alone stored =
    let whole : take e.size e.bytes ≡ e.bytes =
      take-all e.size e.bytes (omega (arith, info.whole)) in
    let stored' = rw whole at stored in
    elim (Bool-cases (same_string (c_string e.name) k)) [
      | inr other ↦ rw (other, value) (ap (first_of (value k l)) (stored' ∙ rw other refl))
      | inl same ↦
          let missing : value k l ≡ none =
            ap (λ s. value s l) (sym ((same_string_iff (c_string e.name) k).0 same)) ∙ alone in
          rw (same, value) (rw missing (stored' ∙ rw same refl))
    ]

-- The memory that is asked for is there.
abbrev pub there : (fresh : ℕ → List ℕ) → ℕ → Answers
there fresh i = record { malloced = true; realloced = some (fresh i) }

module _ (fresh : ℕ → List ℕ) (room : (i : ℕ) → length (fresh i) ≡ name_length) where
  abbrev Cloned : List EnvironInfo → Environment → ℤ × Environment → Type 0
  Cloned l dest r =
      (r.0 ≡ pos 0)
      × IsEnvironment r.1
      × ((name : List ℕ)
          → variable name r.1 ≡ first_of (value (take name_length name) l) (variable name dest))

  clone_from_lem :
      (l : List EnvironInfo) (i : ℕ) (dest : Environment)
      → AreInfos l
      → IsEnvironment dest
      → Cloned l dest (clone_from (there fresh) i l dest)
  unfolding AreInfos clone_from value
  clone_from_lem [] i dest h d = (refl, d, λ name. refl)
  clone_from_lem (e ∷ l) i dest (info, alone, h) d =
      let (rc, s) =
        set_environment_lem d (c_string e.name) e.bytes (fresh i) e.size (c_string-IsText e.name)
          info.some_bytes (omega (arith, info.whole)) (room i) info.short in
      let (rc', kept, values) =
        clone_from_lem l (suc i)
          (set_environment (there fresh i) (some (c_string e.name)) (some e.bytes) e.size dest).1 h
          s.kept in
      rw (clone_from-cons (there fresh) i e l dest rc) (
        rc',
        kept,
        λ name.
            values name
            ∙ joins e l (take name_length name) _ (variable name dest) info alone
                (s.variables name),
      )

-- `clone_environment` with the memory it asks for at hand succeeds, whatever the destination held,
-- and `get_environment` then answers the same for both.
pub clone_environment_lem :
    (fresh : ℕ → List ℕ) (dest src : Environment)
    → ((i : ℕ) → length (fresh i) ≡ name_length)
    → IsEnvironment src
    → ((clone_environment (there fresh) dest src).0 ≡ pos 0)
      × IsEnvironment (clone_environment (there fresh) dest src).1
      × ((name : List ℕ) (limit : ℕ)
          → get_environment name limit (clone_environment (there fresh) dest src).1
            ≡ get_environment name limit src)
unfolding clone_environment AreInfos value
clone_environment_lem fresh dest src room h =
    let (rc, kept, values) =
      clone_from_lem fresh room (infos src) 0 (release_environment dest).1 h.each
        (record { counted = refl; each = empty }) in
    rw (take-all src.environment_count (infos src) (omega (arith, h.counted))) (
      rc,
      kept,
      λ name limit.
          get_environment_lem kept name limit
          ∙ ap (answer limit) (values name ∙ first_none (variable name src))
          ∙ sym (get_environment_lem h name limit),
    )
  where
    empty : AreInfos []
    empty = tt

    first_none : (o : Option (ℕ × List ℕ)) → first_of o none ≡ o
    first_none none = refl
    first_none (some v) = refl
