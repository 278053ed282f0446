-- ===== src/Sched/Turns.antt =====
-- kernel/src/scheduler.c: the loop of `scheduler` takes the threads of the run queue in turn.
use native.Mathlib.Nat.{mod-lt, mod-eq_of_lt, add-mod-mod}
use spoon_microkernel.Prelude.{
  ℕ, zero, suc, ◌+◌, ◌%◌, ◌<◌, ◌≡◌, refl, sym, ap, ◌∙◌, inl, false, Option, none, get_or, ◌==◌,
  arith, add32, update, update_self, Returns, Returns-map, ◌>>=◌, some,
}
use spoon_microkernel.Kernel.{Kernel, SchedulerInfo}
use mathlib.Core.Path.{subst}
use spoon_microkernel.Sched.{on_cpu}
use spoon_microkernel.Htable.Lookup.{round_of}
use spoon_microkernel.Sched.RunQueue.{IsQueue}
use spoon_microkernel.Sched.Switch.{next_entry, pick, remove_last, turn}

-- The kernel after a number of turns of the processor.
unfoldable pub turns : (id n : ℕ) → Kernel → Option Kernel
unfolding turn
turns id zero k = some k
turns id (suc n) k = do (_, k1) ← turn id k; turns id n k1

-- No thread asks to change its state.
pub record IsQuiet (si : SchedulerInfo) : Type 0 where
  pub thread : si.requesting_thread ≡ none
  pub state : si.requesting_state ≡ none

abbrev moved_on : SchedulerInfo → SchedulerInfo
moved_on si = record si { position = (si.position + 1) % si.sched_count }

remove_last_quiet : (id : ℕ) (k : Kernel) → IsQuiet (k.sched id) → remove_last id k ≡ some k
unfolding remove_last
remove_last_quiet id k quiet = rw (quiet.thread, remove_last) (rw (quiet.state, remove_last) refl)

module _ {si : SchedulerInfo} (v : IsQueue si) (some_threads : 0 < si.sched_count) where
  pick_lem : pick si ≡ (next_entry si, moved_on si)
  unfolding pick
  pick_lem =
      let queued : (si.sched_count == 0) ≡ false = ground arith in
      let step : add32 si.position 1 ≡ si.position + 1 = omega (arith, v.turn, v.within, v.small) in
      rw (queued, pick) (rw step refl)

  pick-IsQueue : IsQueue (moved_on si)
  pick-IsQueue = record {
    sized = v.sized;
    within = v.within;
    small = v.small;
    turn = inl (mod-lt (si.position + 1) some_threads);
  }

module _ (id count : ℕ) (some_threads : 0 < count) where
  turn_lem :
      (k : Kernel) (si : SchedulerInfo)
      → k.sched id ≡ si
      → IsQueue si
      → IsQuiet si
      → si.sched_count ≡ count
      → turn id k ≡ some (next_entry si, on_cpu k id (moved_on si))
  unfolding turn
  turn_lem k si e v quiet same =
      let here : update k.sched id (moved_on si) id ≡ moved_on si =
        update_self k.sched id (moved_on si) in
      ap
        (λ (s : SchedulerInfo).
          remove_last id (on_cpu k id (pick s).1) >>= λ k1. some ((pick s).0, k1))
        e
      ∙ ap
          (λ (r : Option ℕ × SchedulerInfo).
            remove_last id (on_cpu k id r.1) >>= λ k1. some (r.0, k1))
          (pick_lem v (omega (arith, same)))
      ∙ ap (λ (o : Option Kernel). o >>= λ k1. some (next_entry si, k1))
          (remove_last_quiet id (on_cpu k id (moved_on si))
            (subst IsQuiet (sym here) (record { thread = quiet.thread; state = quiet.state })))

  -- The choice after `n` other turns.
  nth_turn :
      (n : ℕ) (k : Kernel) (si : SchedulerInfo)
      → k.sched id ≡ si
      → IsQueue si
      → IsQuiet si
      → si.sched_count ≡ count
      → Returns
          (turns id n k >>= λ k1. turn id k1)
          (λ r. r.0 ≡ get_or si.sched_queue ((n + si.position) % count) none)
  unfolding turns
  nth_turn zero k si e v quiet same =
      let at : si.position ≡ 0 + si.position = omega arith in
      rw (turn_lem k si e v quiet same) (
        ap (λ (i : ℕ). get_or si.sched_queue i none)
          (at ∙ sym (mod-eq_of_lt (omega (arith, v.turn, same)))))
  nth_turn (suc n) k si e v quiet same =
      let next : n + (si.position + 1) ≡ suc n + si.position = omega arith in
      rw (turn_lem k si e v quiet same) (
        Returns-map (turns id n (on_cpu k id (moved_on si)) >>= λ k1. turn id k1) _ _
          (λ r at.
            at
            ∙ ap (λ (i : ℕ). get_or si.sched_queue i none)
                (ap (λ (c : ℕ). (n + (si.position + 1) % c) % count) same
                  ∙ add-mod-mod n (si.position + 1) count
                  ∙ ap (λ (i : ℕ). i % count) next))
          (nth_turn n (on_cpu k id (moved_on si)) (moved_on si)
            (update_self k.sched id (moved_on si)) (pick-IsQueue v (omega (arith, same)))
            (record { thread = quiet.thread; state = quiet.state }) same))

-- As long as no thread asks to change its state and none joins the run queue or leaves it, turns of the
-- processor that find no thread in the fast queue return, and each place of the run queue is chosen
-- after fewer other turns than there are threads in the queue.
pub turn_fair :
    (id : ℕ) (k : Kernel) (place : ℕ)
    → IsQueue (k.sched id)
    → IsQuiet (k.sched id)
    → place < (k.sched id).sched_count
    → (n : ℕ) × (n < (k.sched id).sched_count)
      × Returns
          (turns id n k >>= λ k1. turn id k1)
          (λ r. r.0 ≡ get_or (k.sched id).sched_queue place none)
turn_fair id k place v quiet lt =
    let si = k.sched id in
    let (n, below, at) = round_of place si.position si.sched_count lt in
    (
      n,
      below,
      Returns-map (turns id n k >>= λ k1. turn id k1) _ _
          (λ r e. e ∙ ap (λ i. get_or si.sched_queue i none) at)
          (nth_turn id si.sched_count (omega arith) n k si refl v quiet refl),
    )
