-- ===== src/Sched/Tests.antt =====
-- Threads that leave the run queue of three.
use mathlib.Core.Option.{some-injective}
use spoon_microkernel.Prelude.{
  ℕ, Option, ◌<◌, get_or, ◌≡◌, refl, none, some, [], ◌∷◌, arith, ◌≢◌, close_gap, Returns, ◌>>=◌,
}
use spoon_microkernel.Prelude.Int.{minus_one}
use spoon_microkernel.Kernel.{Kernel, SchedulerInfo, dormant}
use spoon_microkernel.Sched.{remove_entry}
use spoon_microkernel.Sched.RunQueue.{entries, IsQueue}
use spoon_microkernel.Sched.Switch.{next_entry, turn, remove_last, remove_last_lem}
use spoon_microkernel.Sched.Turns.{turns, turn_fair}
use spoon_microkernel.Scene.{scene, scheduler}

-- The second of three entries ran last.
abbrev three : SchedulerInfo
three = record scheduler {
  sched_queue = some 4 ∷ some 5 ∷ some 6 ∷ none ∷ [];
  sched_count = 3;
  position = 2;
  requesting_thread = some 5;
  requesting_state = some dormant;
}

-- The last of them ran last.
abbrev wrapped : SchedulerInfo
wrapped = record three { position = 0 }

three-IsQueue : IsQueue three
three-IsQueue = record {
  sized = refl;
  within = omega arith;
  small = omega arith;
  turn = omega arith;
}

wrapped-IsQueue : IsQueue wrapped
wrapped-IsQueue = record {
  sized = refl;
  within = omega arith;
  small = omega arith;
  turn = omega arith;
}

-- Thread 4 had the next turn, and thread 5 gets it.
skipped : (next_entry wrapped ≡ some 4) × (next_entry (remove_entry 2 wrapped) ≡ some 5)
unfolding remove_entry close_gap
skipped = (refl, refl)

abbrev switching : Kernel
switching = record scene { sched = λ c. three }

remove_last_lem_example : Returns (remove_last 0 switching) (λ k'.
    (k'.thread 5 ≡ record (switching.thread 5) { state = dormant; cpu = minus_one })
    × (entries (k'.sched 0) ≡ some 4 ∷ some 6 ∷ [])
    × IsQueue (k'.sched 0)
    × ((k'.sched 0).requesting_thread ≡ none)
    × ((k'.sched 0).requesting_state ≡ none))
remove_last_lem_example =
    remove_last_lem switching 0 5 dormant (some 4 ∷ []) (some 6 ∷ []) three-IsQueue refl refl refl
      (apart, tt)
  where
    apart : ◌≢◌ {A = Option ℕ} (some 4) (some 5)
    apart e = absurd (omega (arith, some-injective 4 5 e))

-- Nobody asks for a change.
abbrev calm : Kernel
calm = record scene {
  sched = λ c. record three { requesting_thread = none; requesting_state = none };
}

calm-IsQueue : IsQueue (calm.sched 0)
calm-IsQueue = record {
  sized = refl;
  within = omega arith;
  small = omega arith;
  turn = omega arith;
}

turn_fair_example :
    (n : ℕ) × (n < three.sched_count)
    × Returns (turns 0 n calm >>= λ k1. turn 0 k1) (λ r. r.0 ≡ get_or three.sched_queue 0 none)
turn_fair_example =
    turn_fair 0 calm 0 calm-IsQueue (record { thread = refl; state = refl }) (omega arith)
