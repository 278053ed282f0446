-- ===== src/Shmem/Infos.antt =====
-- The list of the processes that may use a region of kernel/src/shmem.c: its search, and a new entry.
use spoon_microkernel.Prelude.{
  ℕ, zero, suc, ◌≤◌, ◌≡◌, refl, ◌∙◌, Bool-cases, Option, none, some, inl, inr, List, [], ◌∷◌,
  length, All, update, update_self, update_ne, if◌then◌else◌, Fresh, arith,
}
use spoon_microkernel.Prelude.Int.{ℤ, ◌==ℤ◌}
use spoon_microkernel.Links.{Lists, list_init, list_insert_before}
use spoon_microkernel.Links.Laws.{IsList, list_insert_before_lem}
use spoon_microkernel.Links.Linked.{first, Linked, Linked-prev, Linked-next}
use spoon_microkernel.Processes.Find.{Walks, next_lem}
use spoon_microkernel.Shmem.{Shmem, ShmemInfo}
use spoon_microkernel.Shmem.Share.{before_head, find_info}

-- The first info of a list that is of the process.
abbrev pub info_of : (ℕ → ShmemInfo) → (pid : ℤ) → List ℕ → Option ℕ
info_of info pid [] = none
info_of info pid (p ∷ l) = if (info p).pid ==ℤ pid then some p else info_of info pid l

pub find_info_lem :
    (fuel : ℕ) (pid : ℤ) (s : Shmem) (before : Option ℕ) (l : List ℕ)
    → length l ≤ fuel
    → Linked s.lists.prev s.lists.next before l none
    → All (λ p. s.lists.object p ≡ p) l
    → find_info fuel pid (first l none) s ≡ some (info_of s.info pid l)
unfolding find_info
find_info_lem zero pid s before [] enough linked own = refl
find_info_lem (suc fuel) pid s before [] enough linked own = refl
find_info_lem zero pid s before (p ∷ l) enough linked own = absurd (omega arith)
find_info_lem (suc fuel) pid s before (p ∷ l) enough linked own =
    let rest = find_info_lem fuel pid s (some p) l (omega arith) linked.2 own.1 in
    rw (next_lem s.lists before p l linked own.1) (elim (Bool-cases ((s.info p).pid ==ℤ pid)) [
      | inl hit ↦ rw hit refl
      | inr miss ↦ rw miss rest
    ])

-- An info at a new address becomes the first of a list.
pub head_lem :
    (h : Lists) (a : ℕ) (head : Option ℕ) (l : List ℕ)
    → head ≡ first l none
    → IsList h l
    → All (λ p. h.object p ≡ p) l
    → Fresh a l
    → Walks (before_head head a (list_init a a h)) (some a) (a ∷ l)
unfolding list_init
head_lem h a head [] start (d, linked) own out = rw start (record {
  listed = ((tt, tt), (update_self h.prev a none, update_self h.next a none, tt));
  start = refl;
  owned = (update_self h.object a a, tt);
})
head_lem h a head (p ∷ l) start (d, linked) own out =
    let began : IsList (list_init a a h) (p ∷ l) = (
      d,
      Linked-prev h.prev (update h.next a none) none (p ∷ l) none a none out
          (Linked-next h.prev h.next none (p ∷ l) none a none out linked),
    ) in
    let (listed, spares) = list_insert_before_lem (list_init a a h) [] p l a began out in
    rw start (record {
      listed = listed;
      start = refl;
      owned = (
        spares.objects a ∙ update_self h.object a a,
        objects (list_insert_before p a (list_init a a h)) spares.objects (p ∷ l) out own,
      );
    })
  where
    objects :
        (h' : Lists)
        → ((q : ℕ) → h'.object q ≡ update h.object a a q)
        → (m : List ℕ) → Fresh a m
        → All (λ p. h.object p ≡ p) m
        → All (λ p. h'.object p ≡ p) m
    objects h' same [] out own = tt
    objects h' same (q ∷ m) out own =
        (same q ∙ update_ne h.object a out.0 ∙ own.0, objects h' same m out.1 own.1)
