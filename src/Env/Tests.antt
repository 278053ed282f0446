-- ===== src/Env/Tests.antt =====
-- An environment of one variable.
use spoon_microkernel.Prelude.{
  ℕ, zero, suc, ◌-◌, ◌≤◌, ◌≡◌, refl, true, none, some, List, [], ◌∷◌, length, take, replicate,
  length-replicate, arith,
}
use spoon_microkernel.Prelude.Int.{pos, minus_one}
use spoon_microkernel.Strings.Copy.{IsText}
use spoon_microkernel.Env.{
  EnvironInfo, Environment, name_length, get_environment, set_environment, clone_environment,
}
use spoon_microkernel.Env.Lookup.{value, IsInfo, AreInfos}
use spoon_microkernel.Env.Stored.{IsEnvironment, Stored}
use spoon_microkernel.Env.Set.{set_environment_lem, set_environment-long}
use spoon_microkernel.Env.Clone.{there, clone_environment_lem}

-- The variable `a`, of three bytes.
abbrev one_info : EnvironInfo
one_info = record { name = 97 ∷ 0 ∷ []; size = 3; bytes = 1 ∷ 2 ∷ 3 ∷ [] }

abbrev one_variable : Environment
one_variable = record { environment = some (one_info ∷ []); environment_count = 1 }

abbrev emptied : Environment
emptied = record { environment = none; environment_count = 0 }

one_info-IsInfo : IsInfo one_info
one_info-IsInfo = record { short = omega arith; some_bytes = omega arith; whole = refl }

one_variable-IsEnvironment : IsEnvironment one_variable
unfolding AreInfos value
one_variable-IsEnvironment = record { counted = refl; each = (one_info-IsInfo, refl, tt) }

emptied-IsEnvironment : IsEnvironment emptied
unfolding AreInfos
emptied-IsEnvironment = record { counted = refl; each = tt }

fresh : List ℕ
fresh = replicate name_length 7

fresh_room : length fresh ≡ name_length
unfolding fresh
fresh_room = length-replicate {A = ℕ} name_length 7

set_environment_lem_example :
    ((set_environment
        (record { malloced = true; realloced = some fresh })
        (some (98 ∷ []))
        (some (5 ∷ 6 ∷ []))
        2
        one_variable).0
      ≡ pos 0)
    × Stored
        (98 ∷ [])
        (some (2, take 2 (5 ∷ 6 ∷ [])))
        one_variable
        (set_environment
          (record { malloced = true; realloced = some fresh })
          (some (98 ∷ []))
          (some (5 ∷ 6 ∷ []))
          2
          one_variable).1
unfolding IsText
set_environment_lem_example =
    set_environment_lem one_variable-IsEnvironment (98 ∷ []) (5 ∷ 6 ∷ []) fresh 2 (omega arith)
      (omega arith) (omega arith) fresh_room (omega arith)

-- A name of as many bytes as its array.
long_name : List ℕ
long_name = replicate name_length 98

replicate-IsText : (n : ℕ) → IsText (replicate n 98)
unfolding IsText
replicate-IsText zero = tt
replicate-IsText (suc n) = (omega arith, replicate-IsText n)

long_name-IsText : IsText long_name
unfolding long_name
long_name-IsText = replicate-IsText name_length

long_name_long : name_length ≤ length long_name
unfolding long_name
long_name_long = omega (arith, length-replicate {A = ℕ} name_length 98)

empty_unset : (k : List ℕ) → value k [] ≡ none
unfolding value
empty_unset k = refl

set_environment-long_example :
    ((set_environment
        (record { malloced = true; realloced = some fresh })
        (some long_name)
        (some (5 ∷ []))
        1
        emptied).0
      ≡ pos 0)
    × ((limit : ℕ)
        → get_environment long_name limit
            (set_environment
              (record { malloced = true; realloced = some fresh })
              (some long_name)
              (some (5 ∷ []))
              1
              emptied).1
          ≡ (minus_one, []))
set_environment-long_example =
    set_environment-long emptied-IsEnvironment long_name (5 ∷ []) fresh 1 long_name-IsText
      (omega arith) (omega arith) fresh_room long_name_long
      (empty_unset (take name_length (take (name_length - 2) long_name)))

-- No memory for the data.
clone_environment_lem_example :
    ((clone_environment (there (λ i. fresh)) emptied one_variable).0 ≡ pos 0)
    × IsEnvironment (clone_environment (there (λ i. fresh)) emptied one_variable).1
    × ((name : List ℕ) (limit : ℕ)
        → get_environment name limit (clone_environment (there (λ i. fresh)) emptied one_variable).1
          ≡ get_environment name limit one_variable)
clone_environment_lem_example =
    clone_environment_lem (λ i. fresh) emptied one_variable (λ i. fresh_room)
      one_variable-IsEnvironment
