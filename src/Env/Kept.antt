-- ===== src/Env/Kept.antt =====
-- The elements of the environment stay in use, no two with the same name.
use spoon_microkernel.Prelude.{
  ℕ, ◌<◌, ◌≡◌, refl, ◌∙◌, inl, inr, Bool-cases, none, List, [], ◌∷◌, ◌++◌, length, set, get_or,
  remove_at, find_pos, arith,
}
use spoon_microkernel.Strings.{c_string}
use spoon_microkernel.Env.{EnvironInfo}
use spoon_microkernel.Env.Lookup.{
  value, named, first_named, IsInfo, AreInfos, value-set, value-append, value-remove_at,
  first_named-same, below, same_symmetric,
}

module _ (k : List ℕ) where
  -- A name that is not found is not the one at the place found.
  value-set-none :
      (k' : List ℕ) (l : List EnvironInfo) (d : EnvironInfo) (size : ℕ) (bytes : List ℕ)
      → first_named k l < length l
      → value k' l ≡ none
      → value k' (
          set l
            (first_named k l)
            (record (get_or l (first_named k l) d) { size = size; bytes = bytes }))
        ≡ none
  value-set-none k' l d size bytes lt absent =
      ground (arith, value-set k k' l d size bytes lt, first_named-same k k' l lt)

  pub AreInfos-set :
      (l : List EnvironInfo) (d : EnvironInfo) (size : ℕ) (bytes : List ℕ)
      → first_named k l < length l
      → 0 < size
      → length bytes ≡ size
      → AreInfos l
      → AreInfos (
          set l
            (first_named k l)
            (record (get_or l (first_named k l) d) { size = size; bytes = bytes }))
  unfolding AreInfos find_pos
  AreInfos-set [] d size bytes lt some_bytes whole h = absurd (omega arith)
  AreInfos-set (e ∷ l) d size bytes lt some_bytes whole (info, alone, h) =
      elim (Bool-cases (named k e)) [
        | inl here ↦
            rw (here, find_pos)
              (record { short = info.short; some_bytes = some_bytes; whole = whole }, alone, h)
        | inr other ↦
            rw (other, find_pos)
              (
                info,
                value-set-none (c_string e.name) l d size bytes (below k [] e l lt other) alone,
                AreInfos-set l d size bytes (below k [] e l lt other) some_bytes whole h,
              )
      ]

  pub AreInfos-append :
      (l : List EnvironInfo) (e : EnvironInfo)
      → value k l ≡ none
      → c_string e.name ≡ k
      → IsInfo e
      → AreInfos l
      → AreInfos (l ++ (e ∷ []))
  unfolding AreInfos value
  AreInfos-append [] e absent at info h = (info, refl, tt)
  AreInfos-append (x ∷ l) e absent at info (info', alone, h) = elim (Bool-cases (named k x)) [
    | inl here ↦ ground arith
    | inr other ↦ (
      info',
      value-append k (c_string x.name) l e (ground arith) at
          ∙ ground (arith, same_symmetric k (c_string x.name)),
      AreInfos-append l e (ground arith) at info h,
    )
  ]

  pub AreInfos-remove_at :
      (l : List EnvironInfo)
      → first_named k l < length l
      → AreInfos l
      → AreInfos (remove_at (first_named k l) l)
  unfolding AreInfos find_pos
  AreInfos-remove_at [] lt h = absurd (omega arith)
  AreInfos-remove_at (e ∷ l) lt (info, alone, h) = elim (Bool-cases (named k e)) [
    | inl here ↦ rw (here, find_pos) h
    | inr other ↦
        rw (other, find_pos)
          (
            info,
            ground
                (arith, value-remove_at k (c_string e.name) l h (below k [] e l lt other), alone),
            AreInfos-remove_at l (below k [] e l lt other) h,
          )
  ]
