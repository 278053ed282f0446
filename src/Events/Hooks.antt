-- ===== src/Events/Hooks.antt =====
-- The number of hooks is the number of handlers that are set.
use spoon_microkernel.Prelude.{
  ℕ, suc, ◌+◌, ◌-◌, ◌≡◌, ◌≢◌, ◌⊎◌, inl, inr, refl, ap, sym, ◌∙◌, false, Bool-cases, Option, none,
  some, List, [], ◌∷◌, if◌then◌else◌, update, update_self, update_ne, Returns, Returns-map, ◌≤◌,
  ◌^◌, arith,
}
use spoon_microkernel.Prelude.Int.{ℤ, pos, negsuc, minus_one, is_neg}
use mathlib.Core.Path.{subst}
use spoon_microkernel.Kernel.{Kernel, Thread, Process}
use spoon_microkernel.Sched.{on_thread}
use mathlib.Core.Option.{some-injective}
use spoon_microkernel.Htable.{magnitude}
use spoon_microkernel.Htable.Lookup.{IsTable, Lookup, retrieve_lem}
use spoon_microkernel.Htable.Stores.{Holds}
use spoon_microkernel.Threads.{get_thread, threads_key, threads_match}
use spoon_microkernel.Events.{
  smk_ok, on_proc, new_hooks, owner, hook_thread, hook_process, is_taken, set_handler,
  set_event_handler,
}

-- One for a handler that is set.
abbrev pub one_if_set : ℤ → ℕ
one_if_set tid = if is_neg tid then 0 else 1

-- The handlers of a list of threads.
unfoldable pub handlers : List ℕ → (ℕ → Thread) → ℕ
handlers [] f = 0
handlers (p ∷ l) f = one_if_set (f p).event_tid + handlers l f

unfoldable pub IsIn : ℕ → List ℕ → Type 0
IsIn p [] = ⊥
IsIn p (q ∷ l) = (q ≡ p) ⊎ IsIn p l

unfoldable pub AreDistinct : List ℕ → Type 0
AreDistinct [] = Unit {0}
AreDistinct (q ∷ l) = (IsIn q l → ⊥) × AreDistinct l

handlers_apart :
    (l : List ℕ) (f : ℕ → Thread) (p : ℕ) (t : Thread)
    → (IsIn p l → ⊥)
    → handlers l (update f p t) ≡ handlers l f
unfolding handlers IsIn
handlers_apart [] f p t h = refl
handlers_apart (q ∷ l) f p t h =
    rw
      (
        update_ne f {p = p} {q = q} t (λ e. h (inl (sym e))),
        handlers_apart l f p t (λ i. h (inr i)),
      )
      refl

handlers-update :
    (l : List ℕ) (f : ℕ → Thread) (p : ℕ) (t : Thread)
    → IsIn p l
    → AreDistinct l
    → handlers l (update f p t) + one_if_set (f p).event_tid ≡ handlers l f + one_if_set t.event_tid
unfolding handlers IsIn AreDistinct
handlers-update [] f p t h d = absurd h
handlers-update (q ∷ l) f p t (inl same) (alone, d) =
    let here : update f p t q ≡ t = ap (update f p t) same ∙ update_self f p t in
    omega (
      arith,
      ap (λ (x : Thread). one_if_set x.event_tid) here,
      ap (λ (x : ℕ). one_if_set (f x).event_tid) same,
      handlers_apart l f p t (λ i. alone (subst (λ x. IsIn x l) (sym same) i)),
    )
handlers-update (q ∷ l) f p t (inr h) (alone, d) =
    let there : update f p t q ≡ f q =
      update_ne f {p = p} {q = q} t (λ e. alone (subst (λ x. IsIn x l) e h)) in
    omega (arith, ap (λ (x : Thread). one_if_set x.event_tid) there, handlers-update l f p t h d)

-- The hooks of a process whose threads are those of the list.
pub record IsHooked (threads : List ℕ) (proc : ℕ) (k : Kernel) : Type 0 where
  pub hooks :
      (k.proc proc).event_hooks
      ≡ pos (one_if_set (k.proc proc).event_tid + handlers threads k.thread)
  pub free : (k.proc proc).event_hooks ≡ pos 0 → (k.proc proc).event_pid ≡ minus_one

-- What is left of the count where a handler is replaced.
new_hooks_lem :
    (old new : ℤ) (n : ℕ)
    → (new_hooks old new (pos (one_if_set old + n)) ≡ none)
      ⊎ (new_hooks old new (pos (one_if_set old + n)) ≡ some (pos (one_if_set new + n)))
new_hooks_lem (negsuc a) (negsuc b) n = inl refl
new_hooks_lem (pos a) (negsuc b) n =
    let one : 1 + n ≡ suc n = omega arith in
    let same : 0 + n ≡ n = omega arith in inr (rw (one, same) refl)
new_hooks_lem (negsuc a) (pos b) n =
    let one : 0 + n + 1 ≡ 1 + n = omega arith in inr (ap (λ (m : ℕ). some (pos m)) one)
new_hooks_lem (pos a) (pos b) n = inr refl

-- The outcome: the count is right again, and an error changes nothing.
pub record Hooked (threads : List ℕ) (proc : ℕ) (k : Kernel) (r : ℤ × Kernel) : Type 0 where
  pub hooked : IsHooked threads proc r.1
  pub fails : r.0 ≢ smk_ok → r.1 ≡ k

module _ (threads : List ℕ) (proc : ℕ) (k : Kernel) (v : IsHooked threads proc k)
    (handler_pid handler_tid : ℤ) where
  same_kernel : (rc : ℤ) → Hooked threads proc k (rc, k)
  same_kernel rc = record { hooked = v; fails = λ h. refl }

  -- With its new handlers and their number the process has an owner exactly if there are any.
  owned :
      (n : ℕ) (p : Process) (k1 : Kernel)
      → p.event_hooks ≡ pos n
      → n ≡ one_if_set p.event_tid + handlers threads k1.thread
      → Hooked threads proc k (smk_ok, on_proc k1 proc (owner handler_pid p))
  owned n p k1 counted total =
      let here : update k1.proc proc (owner handler_pid p) proc ≡ owner handler_pid p =
        update_self k1.proc proc (owner handler_pid p) in
      record {
        hooked = record {
          hooks =
              ap (λ (q : Process). q.event_hooks) here
              ∙ counted
              ∙ ap pos total
              ∙ ap (λ (q : Process). pos (one_if_set q.event_tid + handlers threads k1.thread))
                  (sym here);
          free = λ none_left.
              ap (λ (q : Process). q.event_pid) here
              ∙ ground (arith, sym (ap (λ (q : Process). q.event_hooks) here) ∙ none_left);
        };
        fails = λ h. absurd (h refl);
      }

  hook_process_lem : Returns (hook_process handler_pid handler_tid proc k) (Hooked threads proc k)
  unfolding hook_process
  hook_process_lem =
      elim (new_hooks_lem (k.proc proc).event_tid handler_tid (handlers threads k.thread)) [
        | inl e ↦
            rw (ap (new_hooks (k.proc proc).event_tid handler_tid) v.hooks ∙ e, hook_process)
              (same_kernel _)
        | inr e ↦
            rw (ap (new_hooks (k.proc proc).event_tid handler_tid) v.hooks ∙ e, hook_process)
              (owned (one_if_set handler_tid + handlers threads k.thread)
                (record (k.proc proc) {
                  event_hooks = pos (one_if_set handler_tid + handlers threads k.thread);
                  event_tid = handler_tid;
                })
                k refl refl)
      ]

  module _ (distinct : AreDistinct threads) where
    hook_thread_lem :
        (tr : ℕ)
        → IsIn tr threads
        → Returns (hook_thread handler_pid handler_tid proc tr k) (Hooked threads proc k)
    unfolding hook_thread
    hook_thread_lem tr mine =
        let unset =
          handlers-update threads k.thread tr (record (k.thread tr) { event_tid = minus_one }) mine
            distinct in
        let after =
          handlers-update threads k.thread tr (record (k.thread tr) { event_tid = handler_tid })
            mine distinct in
        let n : ℕ =
          one_if_set (k.proc proc).event_tid
          + handlers threads k.thread
          - one_if_set (k.thread tr).event_tid in
        let total : one_if_set (k.proc proc).event_tid + handlers threads k.thread
            ≡ one_if_set (k.thread tr).event_tid + n =
          omega (arith, unset) in
        let counted = ap (new_hooks (k.thread tr).event_tid handler_tid) (v.hooks ∙ ap pos total) in
        elim (new_hooks_lem (k.thread tr).event_tid handler_tid n) [
          | inl e ↦ rw (counted ∙ e, hook_thread) (same_kernel _)
          | inr e ↦
              rw (counted ∙ e, hook_thread)
                (owned (one_if_set handler_tid + n)
                  (record (k.proc proc) { event_hooks = pos (one_if_set handler_tid + n) })
                  (on_thread k tr (record (k.thread tr) { event_tid = handler_tid })) refl
                  (omega (arith, after, unset)))
        ]

    found_lem :
        (target_tid : ℤ) (o : Option (Option ℕ))
        → get_thread proc target_tid k ≡ o
        → Returns o (λ found. (tr : ℕ) → found ≡ some tr → IsIn tr threads)
        → is_taken handler_pid (k.proc proc) ≡ false
        → is_neg target_tid ≡ false
        → Returns (set_handler handler_pid handler_tid target_tid proc k) (Hooked threads proc k)
    unfolding set_handler
    found_lem target_tid none e finds ours thread = absurd finds
    found_lem target_tid (some none) e finds ours thread =
        rw (ours, set_handler) (rw (thread, set_handler) (rw (e, set_handler) (same_kernel _)))
    found_lem target_tid (some (some tr)) e finds ours thread =
        rw (ours, set_handler)
          (rw (thread, set_handler) (rw (e, set_handler) (hook_thread_lem tr (finds tr refl))))

    -- A thread that is found is one of the process.
    get_thread_lem :
        (target_tid : ℤ)
        → IsTable (k.proc proc).threads_htable
        → ((tr : ℕ) → Holds (k.proc proc).threads_htable tr → IsIn tr threads)
        → magnitude (threads_key target_tid) + (k.proc proc).threads_htable.size ≤ 2 ^ 31
        → Returns
            (get_thread proc target_tid k)
            (λ found. (tr : ℕ) → found ≡ some tr → IsIn tr threads)
    unfolding get_thread
    get_thread_lem target_tid counted all small =
        Returns-map (get_thread proc target_tid k)
          (Lookup (λ tr. threads_match target_tid (k.thread tr)) (k.proc proc).threads_htable) _
          found
          (retrieve_lem (λ tr. threads_match target_tid (k.thread tr)) (threads_key target_tid)
            (k.proc proc).threads_htable counted small)
      where
        found :
            (o : Option ℕ)
            → Lookup (λ tr. threads_match target_tid (k.thread tr)) (k.proc proc).threads_htable o
            → (tr : ℕ) → o ≡ some tr
            → IsIn tr threads
        found none look tr e = cc
        found (some a) (good, held) tr e =
            subst (λ x. IsIn x threads) (some-injective a tr e) (all a held)

    set_handler_lem :
        (target_tid : ℤ)
        → IsTable (k.proc proc).threads_htable
        → ((tr : ℕ) → Holds (k.proc proc).threads_htable tr → IsIn tr threads)
        → (is_neg target_tid ≡ false
            → magnitude (threads_key target_tid) + (k.proc proc).threads_htable.size ≤ 2 ^ 31)
        → Returns (set_handler handler_pid handler_tid target_tid proc k) (Hooked threads proc k)
    unfolding set_handler
    set_handler_lem target_tid counted all small =
        elim (Bool-cases (is_taken handler_pid (k.proc proc))) [
          | inl taken ↦ rw (taken, set_handler) (same_kernel _)
          | inr ours ↦ elim (Bool-cases (is_neg target_tid)) [
            | inl whole ↦ rw (ours, set_handler) (rw (whole, set_handler) hook_process_lem)
            | inr thread ↦
                found_lem target_tid (get_thread proc target_tid k) refl
                  (get_thread_lem target_tid counted all (small thread)) ours thread
          ]
        ]

    -- `set_event_handler` of a process whose count of hooks is right, and whose table has only threads of
    -- the process, does not fail an assertion, if the key of the thread stays below 2 ^ 31 by the size
    -- of the table or no thread is named. The count is right again, without hooks the process has no
    -- owner, and an error changes nothing.
    pub set_event_handler_lem :
        (target_pid target_tid : ℤ)
        → is_neg handler_pid ≡ false
        → IsTable (k.proc proc).threads_htable
        → ((tr : ℕ) → Holds (k.proc proc).threads_htable tr → IsIn tr threads)
        → (is_neg target_tid ≡ false
            → magnitude (threads_key target_tid) + (k.proc proc).threads_htable.size ≤ 2 ^ 31)
        → Returns
            (set_event_handler handler_pid handler_tid target_pid target_tid (some proc) k)
            (Hooked threads proc k)
    unfolding set_event_handler
    set_event_handler_lem target_pid target_tid sane counted all small =
        elim (Bool-cases (is_neg target_pid)) [
          | inl bad ↦ rw (sane, set_event_handler) (rw (bad, set_event_handler) (same_kernel _))
          | inr good ↦
              rw (sane, set_event_handler)
                (rw (good, set_event_handler) (set_handler_lem target_tid counted all small))
        ]
