-- ===== src/Events/Tests.antt =====
-- A handler for the sleeping thread of the scene's process.
use mathlib.Core.Option.{some-injective}
use spoon_microkernel.Prelude.{
  ℕ, zero, suc, ◌^◌, ◌≡◌, refl, inl, inr, none, some, List, [], ◌∷◌, Returns, arith,
}
use spoon_microkernel.Prelude.Int.{pos}
use spoon_microkernel.Htable.{retrieve}
use spoon_microkernel.Htable.Lookup.{IsTable}
use spoon_microkernel.Htable.Stores.{Holds}
use spoon_microkernel.Threads.{get_thread}
use spoon_microkernel.Events.{set_event_handler}
use spoon_microkernel.Events.Hooks.{
  IsIn, AreDistinct, IsHooked, Hooked, handlers, set_event_handler_lem,
}
use spoon_microkernel.Scene.{scene}

abbrev threads : List ℕ
threads = 0 ∷ 5 ∷ []

scene-IsHooked : IsHooked threads 0 scene
unfolding handlers
scene-IsHooked = record { hooks = refl; free = λ h. refl }

threads-AreDistinct : AreDistinct threads
unfolding AreDistinct IsIn
threads-AreDistinct = (apart, ((λ h. h), tt))
  where
    apart : IsIn 0 (5 ∷ []) → ⊥
    apart (inl e) = cc
    apart (inr h) = h

sleeper_found : get_thread 0 (pos 2) scene ≡ some (some 5)
unfolding get_thread retrieve
sleeper_found = refl

-- A thread number for which the key is 2 ^ 31 as a word, a negative `int`: the kernel halts.
halted_lookup : get_thread 0 (pos (2 ^ 29)) scene ≡ none
unfolding get_thread retrieve
halted_lookup = refl

scene-IsTable : IsTable (scene.proc 0).threads_htable
scene-IsTable = record { slots = omega arith; counted = refl }

of_process : (tr : ℕ) → Holds (scene.proc 0).threads_htable tr → IsIn tr threads
unfolding IsIn
of_process tr (zero, lt, e) = inl (some-injective 0 tr e)
of_process tr (suc zero, lt, e) = inr (inl (some-injective 5 tr e))
of_process tr (suc (suc zero), lt, e) = cc
of_process tr (suc (suc (suc zero)), lt, e) = cc
of_process tr (suc (suc (suc (suc p))), lt, e) = absurd (omega arith)

set_event_handler_lem_example :
    Returns
      (set_event_handler (pos 3) (pos 1) (pos 4) (pos 2) (some 0) scene)
      (Hooked threads 0 scene)
set_event_handler_lem_example =
    set_event_handler_lem threads 0 scene scene-IsHooked (pos 3) (pos 1) threads-AreDistinct (pos 4)
      (pos 2) refl scene-IsTable of_process (λ h. omega arith)
