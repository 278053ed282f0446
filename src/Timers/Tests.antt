-- ===== src/Timers/Tests.antt =====
-- Two threads that wait, and the one that runs.
use spoon_microkernel.Prelude.{◌≢◌, refl, none, some, [], ◌∷◌, arith, Returns}
use spoon_microkernel.Kernel.{Kernel, running, Paused, SchedulerInfo}
use spoon_microkernel.Sched.{no_thread}
use spoon_microkernel.Sched.RunQueue.{IsQueue}
use spoon_microkernel.Timers.{pause, remove_timers}
use spoon_microkernel.Timers.Order.{paused, AreFrom}
use spoon_microkernel.Timers.Release.{due, AreReal}
use spoon_microkernel.Timers.Partition.{Released, remove_timers_lem}
use spoon_microkernel.Timers.Pausing.{CanPause, PausedBy, pause_lem}
use spoon_microkernel.Scene.{scene, scheduler}

abbrev waits_until_5 : Paused
waits_until_5 = record { tr = some 6; state = running; request = 5; start = 1 }

abbrev waits_until_9 : Paused
waits_until_9 = record { tr = some 7; state = running; request = 9; start = 2 }

abbrev waiting_scheduler : SchedulerInfo
waiting_scheduler = record scheduler {
  pause_queue = waits_until_5 ∷ waits_until_9 ∷ no_thread ∷ no_thread ∷ [];
  pause_count = 2;
  pause_size = 4;
}

abbrev waiting_scene : Kernel
waiting_scene = record scene { sched = λ _. waiting_scheduler }

waiting-IsQueue : IsQueue waiting_scheduler
waiting-IsQueue = record {
  sized = refl;
  within = omega arith;
  small = omega arith;
  turn = omega arith;
}

waiting-AreFrom : AreFrom 0 (paused waiting_scheduler)
unfolding AreFrom
waiting-AreFrom = (omega arith, (omega arith, tt))

some_thread : waits_until_5.tr ≢ none
some_thread e = cc

remove_timers_lem_example : Returns (remove_timers 0 5 waiting_scene) (Released 0 5 waiting_scene)
unfolding due AreReal
remove_timers_lem_example =
    remove_timers_lem 0 5 waiting_scene waiting-AreFrom (omega arith) waiting-IsQueue
      (some_thread, tt) (omega arith)

waiting-CanPause : CanPause 0 waiting_scene
waiting-CanPause = record {
  exists = omega arith;
  free = refl;
  current = refl;
  runs = refl;
  here = refl;
  room = omega arith;
  sized = omega arith;
}

pause_lem_example : Returns (pause 0 3 waiting_scene) (PausedBy 0 3 waiting_scene)
pause_lem_example = pause_lem 0 3 waiting_scene (omega arith) waiting-CanPause waiting-AreFrom
