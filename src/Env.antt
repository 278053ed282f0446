-- ===== src/Env.antt =====
-- kernel/src/env.c: the environment variables of a process. An array is the list of its elements;
-- the pointers `name` and `data` of a call are `none` for NULL, and else what they point to.
pub mod Lookup
pub mod Kept
pub mod Stored
pub mod Set
pub mod Remove
pub mod Clone
mod Tests
use spoon_microkernel.Prelude.{
  ℕ, zero, suc, ◌+◌, ◌-◌, Bool, true, false, Option, none, some, List, [], ◌∷◌, ◌++◌, length, take,
  set, get_or, ltb, leb, ◌==◌, if◌then◌else◌, find_pos, close_gap,
}
use spoon_microkernel.Prelude.Int.{ℤ, pos, negsuc, minus_one}
use spoon_microkernel.Strings.{c_string, strncmp, strncpy}

-- `ENVIRONMENT_NAME_LENGTH`
abbrev pub name_length : ℕ
name_length = 1024

-- `struct environ_info`: `name` is the array of `name_length` bytes, `bytes` what `data` points to.
pub record EnvironInfo : Type 0 where
  pub name : List ℕ
  pub size : ℕ
  pub bytes : List ℕ

-- The two members of `struct process` for the environment.
pub record Environment : Type 0 where
  pub environment : Option (List EnvironInfo)
  pub environment_count : ℕ

-- What `malloc` and `realloc` answer: whether there is memory, and the bytes that the name of the new
-- element has at first.
pub record Answers : Type 0 where
  pub malloced : Bool
  pub realloced : Option (List ℕ)

abbrev pub infos_of : Option (List EnvironInfo) → List EnvironInfo
infos_of none = []
infos_of (some env) = env

-- `env`
abbrev pub infos : Environment → List EnvironInfo
infos p = infos_of p.environment

-- `strncmp( env[i].name, name, ENVIRONMENT_NAME_LENGTH ) == 0`
abbrev pub is_named : List ℕ → EnvironInfo → Bool
is_named name e = strncmp (c_string e.name) name name_length == 0

-- The loop that looks for a name: the final `i`.
unfoldable pub find_name : List ℕ → Environment → ℕ
find_name name p = find_pos (is_named name) p.environment_count (infos p)

abbrev pub no_info : EnvironInfo
no_info = record { name = []; size = 0; bytes = [] }

abbrev pub info_at : ℕ → Environment → EnvironInfo
info_at i p = get_or (infos p) i no_info

-- The end of `set_environment`: the name was not found.
abbrev pub add_info : Option (List ℕ) → (name bytes : List ℕ) → ℕ → Environment → ℤ × Environment
add_info none name bytes size p = (minus_one, record { environment = none; environment_count = 0 })
add_info (some fresh) name bytes size p =
    let e : EnvironInfo = record {
      name = strncpy fresh name name_length;
      size = size;
      bytes = take size bytes;
    } in
    (
      pos 0,
      record {
        environment = some (infos p ++ (e ∷ []));
        environment_count = p.environment_count + 1;
      },
    )

-- `set_environment` behind its sanity checks.
unfoldable pub store_info : Answers → (name bytes : List ℕ) → ℕ → Environment → ℤ × Environment
store_info a name bytes size p =
    let i = find_name name p in
    if a.malloced
    then (if i == p.environment_count then add_info a.realloced name bytes size p else (
      pos 0,
      record p {
        environment =
            some (set (infos p) i (record (info_at i p) { size = size; bytes = take size bytes }));
      },
    ))
    else (minus_one, p)

-- `set_environment`
unfoldable pub set_environment :
    Answers → (name bytes : Option (List ℕ)) → ℕ → Environment → ℤ × Environment
unfolding store_info
set_environment a name none size p = (minus_one, p)
set_environment a none (some bytes) size p = (minus_one, p)
set_environment a (some name) (some bytes) size p =
    if size == 0 then (minus_one, p) else store_info a name bytes size p

-- `get_environment`: the result, and the bytes that are written to the buffer.
unfoldable pub get_environment : (name : List ℕ) → ℕ → Environment → ℤ × List ℕ
get_environment name size p =
    let i = find_name name p in
    let e = info_at i p in
    let new_size = if ltb size e.size then size else e.size in
    if i == p.environment_count then (minus_one, []) else (pos new_size, take new_size e.bytes)

-- `get_environment_size`: the result, and what is written to `*size`.
unfoldable pub get_environment_size : (name : List ℕ) → Environment → ℤ × Option ℕ
get_environment_size name p =
    let i = find_name name p in
    if i == p.environment_count then (minus_one, none) else (pos 0, some (info_at i p).size)

-- `get_environment_information`, with the array that `name` points to.
unfoldable pub get_environment_information :
    (i : ℤ) (name : List ℕ) → Environment → ℤ × Option (List ℕ × ℕ)
get_environment_information (negsuc i) name p = (minus_one, none)
get_environment_information (pos i) name p =
    if leb p.environment_count i
    then (minus_one, none)
    else (pos 0, some (strncpy name (c_string (info_at i p).name) name_length, (info_at i p).size))

-- `remove_environment`, where `realloc` makes the array smaller. With nothing left it returns NULL.
unfoldable pub remove_environment : (name : List ℕ) → Environment → ℤ × Environment
remove_environment name p =
    let i = find_name name p in
    let count = p.environment_count - 1 in
    let left = take count (close_gap i p.environment_count (infos p)) in
    if i == p.environment_count then (minus_one, p) else (
      pos 0,
      record { environment = if count == 0 then none else some left; environment_count = count },
    )

-- `release_environment`
abbrev pub release_environment : Environment → ℤ × Environment
release_environment p = (pos 0, record { environment = none; environment_count = 0 })

-- The loop of `clone_environment`, with an answer for each round.
unfoldable pub clone_from :
    (ℕ → Answers) → (i : ℕ) → List EnvironInfo → Environment → ℤ × Environment
unfolding set_environment
clone_from answers i [] dest = (pos 0, dest)
clone_from answers i (e ∷ env) dest =
    let (rc, next) =
      set_environment (answers i) (some (c_string e.name)) (some e.bytes) e.size dest in
    let rest = clone_from answers (suc i) env next in
    elim rc [
      | pos zero ↦ rest
      | pos (suc _) ↦ (minus_one, (release_environment next).1)
      | negsuc _ ↦ (minus_one, (release_environment next).1)
    ]

-- `clone_environment`
unfoldable pub clone_environment : (ℕ → Answers) → (dest src : Environment) → ℤ × Environment
unfolding clone_from
clone_environment answers dest src =
    clone_from answers 0 (take src.environment_count (infos src)) (release_environment dest).1
