-- ===== src/Sched/Fast/Tests.antt =====
-- The fast queue of the scene's processor, with one thread in it.
use spoon_microkernel.Prelude.{◌≡◌, refl, none, some, [], ◌∷◌, get_or, replicate, arith, set}
use spoon_microkernel.Kernel.{Kernel, SchedulerInfo}
use spoon_microkernel.Ring.{ring}
use spoon_microkernel.Sched.Fast.{get_fast}
use spoon_microkernel.Sched.Fast.Fifo.{fast, IsFast, get_fast_lem}
use spoon_microkernel.Scene.{scene, scheduler}

-- Thread 0 is in the last place of the array.
abbrev one_fast : SchedulerInfo
one_fast = record scheduler {
  fast_queue = set (replicate 32 none) 31 (some 0);
  fast_start = 31;
  fast_stop = 0;
}

abbrev fast_scene : Kernel
fast_scene = record scene { sched = λ _. one_fast }

one_fast-IsFast : IsFast one_fast
one_fast-IsFast = record { sized = refl; start = omega arith; stop = omega arith }

one_fast_lem : fast one_fast ≡ some 0 ∷ []
unfolding ring
one_fast_lem = refl

get_fast_lem_example : get_fast one_fast ≡ get_or (fast one_fast) 0 none
get_fast_lem_example = get_fast_lem one_fast-IsFast
