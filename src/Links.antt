-- ===== src/Links.antt =====
-- kernel/src/include/ds/list.h: a doubly linked list whose links stand inside the objects. A link is
-- known by its address, and each field of `struct ds_list` is a heap from such addresses.
pub mod Linked
pub mod Splice
pub mod Laws
use spoon_microkernel.Prelude.{ℕ, Option, none, some, update}

-- `struct ds_list`
pub record Lists : Type 0 where
  pub object : ℕ → ℕ
  pub prev : ℕ → Option ℕ
  pub next : ℕ → Option ℕ

-- A write to a field of the link behind a pointer, if it is not NULL.
abbrev pub write_at : Option ℕ → Option ℕ → (ℕ → Option ℕ) → ℕ → Option ℕ
write_at none v field = field
write_at (some p) v field = update field p v

-- `list_init`
unfoldable pub list_init : (l object : ℕ) → Lists → Lists
list_init l object h = record h {
  object = update h.object l object;
  prev = update h.prev l none;
  next = update h.next l none;
}

-- `list_remove`
unfoldable pub list_remove : (l : ℕ) → Lists → Lists
unfolding list_init
list_remove l h =
    let h1 = record h { next = write_at (h.prev l) (h.next l) h.next } in
    let h2 = record h1 { prev = write_at (h1.next l) (h1.prev l) h1.prev } in
    list_init l (h2.object l) h2

-- `list_insertBefore`
unfoldable pub list_insert_before : (position l : ℕ) → Lists → Lists
list_insert_before position l h =
    let h1 = record h { prev = update h.prev l (h.prev position) } in
    let h2 = record h1 { next = update h1.next l (some position) } in
    let h3 = record h2 { prev = update h2.prev position (some l) } in
    record h3 { next = write_at (h3.prev l) (some l) h3.next }

-- `list_insertAfter`
unfoldable pub list_insert_after : (position l : ℕ) → Lists → Lists
list_insert_after position l h =
    let h1 = record h { prev = update h.prev l (some position) } in
    let h2 = record h1 { next = update h1.next l (h1.next position) } in
    let h3 = record h2 { next = update h2.next position (some l) } in
    record h3 { prev = write_at (h3.next l) (some l) h3.prev }
