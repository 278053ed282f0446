-- ===== src/Family.antt =====
-- kernel/src/include/ds/family.h: a tree whose links stand inside the objects. Each field of
-- `struct ds_family_tree` is a heap from the addresses of such links.
pub mod Kids
pub mod Remove
pub mod Add
pub mod Sibling
pub mod Adopt
pub mod Leave
use spoon_microkernel.Prelude.{
  ℕ, zero, suc, Bool, Option, none, some, update, ◌==◌, if◌then◌else◌, ◌>>=◌,
}
use spoon_microkernel.Links.{write_at}

-- `struct ds_family_tree`
pub record Family : Type 0 where
  pub object : ℕ → ℕ
  pub parent : ℕ → Option ℕ
  pub child : ℕ → Option ℕ
  pub sibling_prev : ℕ → Option ℕ
  pub sibling_next : ℕ → Option ℕ

-- `family_init`
unfoldable pub family_init : (fam object : ℕ) → Family → Family
family_init fam object f = record f {
  object = update f.object fam object;
  parent = update f.parent fam none;
  child = update f.child fam none;
  sibling_prev = update f.sibling_prev fam none;
  sibling_next = update f.sibling_next fam none;
}

-- The children of the parent, without `fam` if it is the first of them.
abbrev pub drop_first : (fam : ℕ) (parent next : Option ℕ) (child : ℕ → Option ℕ) → ℕ → Option ℕ
drop_first fam none next child = child
drop_first fam (some p) next child = elim (child p) [
  | none ↦ child
  | some c ↦ if c == fam then update child p next else child
]

-- `family_remove`
unfoldable pub family_remove : (fam : ℕ) → Family → Family
family_remove fam f =
    let f1 = record f { child = drop_first fam (f.parent fam) (f.sibling_next fam) f.child } in
    let f2 = record f1 {
      sibling_next = write_at (f1.sibling_prev fam) (f1.sibling_next fam) f1.sibling_next;
    } in
    let f3 = record f2 {
      sibling_prev = write_at (f2.sibling_next fam) (f2.sibling_prev fam) f2.sibling_prev;
    } in
    record f3 {
      parent = update f3.parent fam none;
      sibling_next = update f3.sibling_next fam none;
      sibling_prev = update f3.sibling_prev fam none;
    }

-- The write of `family_add_child` where there is a child.
abbrev pub before_child : (fam : ℕ) (child : Option ℕ) → Family → Family
before_child fam none f = f
before_child fam (some c) f = record f {
  sibling_prev = update f.sibling_prev c (some fam);
  sibling_next = update f.sibling_next fam (some c);
}

-- `family_add_child`
unfoldable pub family_add_child : (parent fam : ℕ) → Family → Family
family_add_child parent fam f =
    let f1 = before_child fam (f.child parent) f in
    record f1 {
      child = update f1.child parent (some fam);
      parent = update f1.parent fam (some parent);
    }

-- `family_add_sibling`
unfoldable pub family_add_sibling : (bro fam : ℕ) → Family → Family
family_add_sibling bro fam f =
    let f1 = record f { sibling_prev = write_at (f.sibling_next bro) (some fam) f.sibling_prev } in
    let f2 = record f1 { sibling_next = update f1.sibling_next fam (f1.sibling_next bro) } in
    let f3 = record f2 { sibling_prev = update f2.sibling_prev fam (some bro) } in
    let f4 = record f3 { sibling_next = update f3.sibling_next bro (some fam) } in
    record f4 { parent = update f4.parent fam (f4.parent bro) }

-- The body of the loop of `family_adopt`.
unfoldable pub adopt_one : (step tmp : ℕ) → Family → Family
adopt_one step tmp f =
    let f1 = record f {
      parent = update f.parent tmp (some step);
      sibling_prev = update f.sibling_prev tmp none;
    } in
    let f2 = record f1 { sibling_next = update f1.sibling_next tmp (f1.child step) } in
    let f3 = record f2 { sibling_prev = write_at (f2.child step) (some tmp) f2.sibling_prev } in
    record f3 { child = update f3.child step (some tmp) }

-- The loop, on fuel; `none` says that there was not enough.
unfoldable pub adopt_loop : (fuel step : ℕ) (tmp : Option ℕ) → Family → Option Family
adopt_loop fuel step none f = some f
adopt_loop zero step (some t) f = none
adopt_loop (suc fuel) step (some t) f = adopt_loop fuel step (f.sibling_next t) (adopt_one step t f)

-- `family_adopt`
unfoldable pub family_adopt : (fuel step_parent dead_parent : ℕ) → Family → Option Family
family_adopt fuel step_parent dead_parent f = do
  f' ← adopt_loop fuel step_parent (f.child dead_parent) f
  some (record f' { child = update f'.child dead_parent none })
