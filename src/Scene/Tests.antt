-- ===== src/Scene/Tests.antt =====
-- The ports, the scheduler and the release of ports on the scene.
use spoon_microkernel.Prelude.{
  ℕ, ◌+◌, ◌≡◌, ◌≢◌, refl, true, false, none, some, [], ◌∷◌, arith, length-replicate, Returns, ap,
}
use spoon_microkernel.Prelude.Int.{pos, minus_one}
use spoon_microkernel.Htable.{retrieve}
use spoon_microkernel.Aqueue.{pull, size}
use spoon_microkernel.Kernel.{running}
use spoon_microkernel.Sched.Locked.{CanLock}
use spoon_microkernel.Sched.RunQueue.{IsQueue}
use spoon_microkernel.Threads.{get_thread, set_thread_state}
use spoon_microkernel.Threads.Wake.{CanWake, Placed, set_thread_state_wakes}
use spoon_microkernel.Ports.{free_block, block, create_port, port_flags}
use spoon_microkernel.Ports.Blocks.{HasPorts}
use spoon_microkernel.Ports.Laws.{opened, create_port_opens}
use spoon_microkernel.Messages.{is_masked}
use spoon_microkernel.Pulses.{pulse_hint, take_pulse, receive_pulse, pulses_waiting}
use spoon_microkernel.Pulses.Laws.{first_open, receive_pulse_any}
use spoon_microkernel.Release.{close_port}
use spoon_microkernel.Release.Laws.{listed, without, close_port_lem}
use spoon_microkernel.Scene.{scene, no_messages, one_pulse}

scene-HasPorts : HasPorts scene 0
scene-HasPorts = ap (λ n. 3 + n) (length-replicate 1021 free_block)

scene-IsQueue : IsQueue (scene.sched 0)
scene-IsQueue = record {
  sized = refl;
  within = omega arith;
  small = omega arith;
  turn = omega arith;
}

scene-CanLock : CanLock 0 false scene
scene-CanLock = record { exists = omega arith; free = refl; other = refl }

sleeper-CanWake : CanWake 5 0 scene
sleeper-CanWake = record {
  other = refl;
  sleeps = refl;
  unpaused = refl;
  nowhere = refl;
  home = refl;
  valid = scene-IsQueue;
  lock = scene-CanLock;
}

set_thread_state_wakes_example : Returns (set_thread_state 5 running scene) (Placed 5 0 scene)
set_thread_state_wakes_example = set_thread_state_wakes sleeper-CanWake

create_port_opens_example : Returns (create_port 0 (pos 8) (pos 2) true true scene) (λ r.
    (r.0 ≡ pos 0)
    × (block r.1 0 8 ≡ opened (pos 2))
    × ((j : ℕ) → 8 ≢ j → block r.1 0 j ≡ block scene 0 j)
    × ((r.1.thread 5).ports ≡ pos 2 ∷ pos 8 ∷ []))
unfolding get_thread retrieve
create_port_opens_example =
    create_port_opens scene 0 8 (pos 2) 5 (pos 2 ∷ []) [] scene-HasPorts (omega arith) refl refl
      refl (apart, tt)
  where
    apart : pos 2 ≢ minus_one
    apart e = cc

receive_pulse_any_example :
    receive_pulse 0 minus_one scene ≡ elim (first_open (is_masked scene 0) (scene.thread 0).ports) [
      | none ↦ some (none, pulse_hint scene 0 minus_one)
      | some i ↦ take_pulse 0 i (pulse_hint scene 0 minus_one)
    ]
receive_pulse_any_example = receive_pulse_any 0 scene minus_one refl refl

-- Port 0 is empty: the pulse in port 1 is counted, and not received.
pulse_missed :
    Returns (receive_pulse 0 minus_one scene) (λ r. r.0 ≡ none)
    × Returns (pulses_waiting 0 scene) (λ r. r.0 ≡ 1)
unfolding receive_pulse pulses_waiting port_flags size pull
pulse_missed = (refl, refl)

close_port_lem_example : Returns (close_port 0 1 (some 0) (pos 1) scene) (λ r.
    (r.0 ≡ pos 0)
    × (block r.1 0 1 ≡ free_block)
    × ((j : ℕ) → 1 ≢ j → block r.1 0 j ≡ block scene 0 j)
    × (listed (r.1.thread 0).ports ≡ without (pos 1) (listed (scene.thread 0).ports)))
close_port_lem_example =
    close_port_lem scene 0 1 0 (pos 1) one_pulse no_messages scene-HasPorts (omega arith) refl refl
