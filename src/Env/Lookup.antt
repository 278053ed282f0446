-- ===== src/Env/Lookup.antt =====
-- The environment as a map from names to sizes and bytes, and what the loops on its array do to it.
use spoon_microkernel.Prelude.{
  ℕ, zero, suc, ◌≤◌, ◌<◌, ◌≡◌, ◌≢◌, ◌⊎◌, refl, ap, sym, ◌∙◌, inl, inr, Bool, true, false,
  Bool-cases, Option, none, some, List, [], ◌∷◌, ◌++◌, length, take, set, get_or, remove_at,
  find_pos, if◌then◌else◌, arith,
}
use spoon_microkernel.Strings.{c_string}
use spoon_microkernel.Strings.Compare.{same_string, same_string_iff, strncmp_lem}
use spoon_microkernel.Env.{EnvironInfo, name_length, is_named}

-- The first element with a name, as its size and its bytes.
unfoldable pub value : List ℕ → List EnvironInfo → Option (ℕ × List ℕ)
value k [] = none
value k (e ∷ l) = if same_string (c_string e.name) k then some (e.size, e.bytes) else value k l

abbrev pub named : List ℕ → EnvironInfo → Bool
named k e = same_string (c_string e.name) k

abbrev pub first_named : List ℕ → List EnvironInfo → ℕ
first_named k l = find_pos (named k) (length l) l

-- An element that is in use.
pub record IsInfo (e : EnvironInfo) : Type 0 where
  pub short : length (c_string e.name) < name_length
  pub some_bytes : 0 < e.size
  pub whole : length e.bytes ≡ e.size

-- Elements in use, no two with the same name.
unfoldable pub AreInfos : List EnvironInfo → Type 0
AreInfos [] = Unit {0}
AreInfos (e ∷ l) = IsInfo e × (value (c_string e.name) l ≡ none) × AreInfos l

pub take-all {ℓ} : {A : Type ℓ} (n : ℕ) (l : List A) → length l ≤ n → take n l ≡ l
take-all zero [] h = refl
take-all zero (x ∷ l) h = absurd (omega arith)
take-all (suc n) [] h = refl
take-all (suc n) (x ∷ l) h = ap (λ t. x ∷ t) (take-all n l (omega arith))

-- The test of the loops compares the names up to their length.
is_named_lem :
    (name : List ℕ) (e : EnvironInfo) → IsInfo e → is_named name e ≡ named (take name_length name) e
is_named_lem name e h =
    strncmp_lem (c_string e.name) name name_length (omega arith)
    ∙ ap (λ (s : List ℕ). same_string s (take name_length name))
        (take-all name_length (c_string e.name) (omega (arith, h.short)))

pub find_pos-is_named :
    (name : List ℕ) (l : List EnvironInfo)
    → AreInfos l
    → find_pos (is_named name) (length l) l ≡ first_named (take name_length name) l
unfolding AreInfos find_pos
find_pos-is_named name [] h = refl
find_pos-is_named name (e ∷ l) (info, _, h) =
    rw (is_named_lem name e info, find_pos)
      (ap (λ (i : ℕ). if named (take name_length name) e then 0 else suc i)
        (find_pos-is_named name l h))

-- What `first_named` and `value` find.
pub first_named_lem :
    (k : List ℕ) (l : List EnvironInfo) (d : EnvironInfo)
    → ((first_named k l ≡ length l) × (value k l ≡ none))
      ⊎ ((first_named k l < length l)
          × (value k l
              ≡ some ((get_or l (first_named k l) d).size, (get_or l (first_named k l) d).bytes)))
unfolding value find_pos
first_named_lem k [] d = inl (refl, refl)
first_named_lem k (e ∷ l) d = elim (Bool-cases (named k e)) [
  | inl here ↦ rw (here, find_pos) (inr (omega arith, refl))
  | inr other ↦
      rw (other, find_pos)
        (elim (first_named_lem k l d) [
          | inl (e, f) ↦ inl (ap suc e, f)
          | inr (e, f) ↦ inr (omega arith, f)
        ])
]

-- The names that a name is compared with, once it is the same as another.
pub same_names : (a k k' : List ℕ) → same_string a k ≡ true → same_string a k' ≡ same_string k k'
same_names a k k' h = ap (λ s. same_string s k') ((same_string_iff a k).0 h)

same_self : (k : List ℕ) → same_string k k ≡ true
same_self k = (same_string_iff k k).1 refl

-- A name that differs from one of two names that are the same differs from the other.
other_names :
    (a k k' : List ℕ) → same_string a k ≡ false → same_string k k' ≡ true → same_string a k' ≡ false
other_names a k k' h e = ap (same_string a) (sym ((same_string_iff k k').0 e)) ∙ h

value-same :
    (a k k' : List ℕ) (l : List EnvironInfo) (o : Option (ℕ × List ℕ))
    → same_string a k ≡ true
    → same_string k k' ≡ true
    → value a l ≡ o
    → value k' l ≡ o
value-same a k k' l o h e f =
    ap (λ s. value s l) (sym ((same_string_iff a k).0 h ∙ (same_string_iff k k').0 e)) ∙ f

pub same_symmetric : (a b : List ℕ) → same_string a b ≡ true → same_string b a ≡ true
same_symmetric a b h = (same_string_iff b a).1 (sym ((same_string_iff a b).0 h))

module _ (k k' : List ℕ) where
  pub below :
      (e : EnvironInfo) (l : List EnvironInfo)
      → first_named k (e ∷ l) < length (e ∷ l)
      → named k e ≡ false
      → first_named k l < length l
  unfolding find_pos
  below e l lt other = ground arith

  pub value-set :
      (l : List EnvironInfo) (d : EnvironInfo) (size : ℕ) (bytes : List ℕ)
      → first_named k l < length l
      → value k' (
          set l
            (first_named k l)
            (record (get_or l (first_named k l) d) { size = size; bytes = bytes }))
        ≡ (if same_string k k' then some (size, bytes) else value k' l)
  unfolding value find_pos
  value-set [] d size bytes lt = absurd (omega arith)
  value-set (e ∷ l) d size bytes lt = elim (Bool-cases (named k e)) [
    | inl here ↦ rw (here, find_pos) (ground (arith, same_names (c_string e.name) k k' here))
    | inr other ↦
        rw (other, find_pos)
          (ground (
            arith,
            other_names (c_string e.name) k k' other,
            value-set l d size bytes (omega (arith, below e l lt other)),
          ))
  ]

  pub value-append :
      (l : List EnvironInfo) (e : EnvironInfo)
      → value k l ≡ none
      → c_string e.name ≡ k
      → value k' (l ++ (e ∷ [])) ≡ (if same_string k k' then some (e.size, e.bytes) else value k' l)
  unfolding value
  value-append [] e fresh named = rw named refl
  value-append (x ∷ l) e fresh named = ground (
    arith,
    same_names (c_string x.name) k k',
    other_names (c_string x.name) k k',
    value-append l e,
    fresh,
  )

  pub value-remove_at :
      (l : List EnvironInfo)
      → AreInfos l
      → first_named k l < length l
      → value k' (remove_at (first_named k l) l) ≡ (if same_string k k' then none else value k' l)
  unfolding value find_pos AreInfos
  value-remove_at [] h lt = absurd (omega arith)
  value-remove_at (e ∷ l) (_, alone, h) lt = elim (Bool-cases (named k e)) [
    | inl here ↦
        rw (here, find_pos)
          (ground (
            arith,
            same_names (c_string e.name) k k' here,
            value-same (c_string e.name) k k' l none here,
          ))
    | inr other ↦
        rw (other, find_pos)
          (ground (
            arith,
            other_names (c_string e.name) k k' other,
            value-remove_at l h (omega (arith, below e l lt other)),
          ))
  ]

-- Of a name that is found, the value is not missing.
pub first_named-same :
    (k k' : List ℕ) (l : List EnvironInfo)
    → first_named k l < length l
    → value k' l ≡ none
    → same_string k k' ≡ false
first_named-same k k' l lt absent = elim (Bool-cases (same_string k k')) [
  | inr other ↦ other
  | inl same ↦ elim (first_named_lem k l missing) [
    | inl (last, _) ↦ absurd (omega arith)
    | inr (_, found) ↦
        absurd
          (some≢none (sym found ∙ ap (λ s. value s l) ((same_string_iff k k').0 same) ∙ absent))
  ]
]
  where
    missing : EnvironInfo
    missing = record { name = []; size = 0; bytes = [] }

    some≢none : {v : ℕ × List ℕ} → some v ≢ none
    some≢none e = cc

-- No variable has a name that fills its array.
pub value-long :
    (k : List ℕ) (l : List EnvironInfo) → AreInfos l → name_length ≤ length k → value k l ≡ none
unfolding value AreInfos
value-long k [] h long = refl
value-long k (e ∷ l) (info, _, h) long = elim (Bool-cases (named k e)) [
  | inr other ↦ rw (other, value) (value-long k l h long)
  | inl same ↦
      absurd (omega (arith, ap length ((same_string_iff (c_string e.name) k).0 same), info.short))
]
