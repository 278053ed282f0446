-- ===== src/Messages/Tests.antt =====
-- Messages sent and received on the scene.
use mathlib.Core.Bool.{true≢false}
use mathlib.Core.List.{head?}
use spoon_microkernel.Prelude.{
  ℕ, zero, suc, ◌+◌, ◌≡◌, refl, ap, inl, inr, true, false, some, List, [], ◌∷◌, arith,
  length-replicate, replicate, get_or, drop, ltb, update, Returns, Bool-cases,
}
use spoon_microkernel.Prelude.Int.{pos, minus_one}
use spoon_microkernel.Htable.{retrieve}
use spoon_microkernel.Aqueue.Runs.{init-IsValid}
use spoon_microkernel.Aqueue.{Aqueue}
use spoon_microkernel.Kernel.{Kernel, Message}
use spoon_microkernel.Threads.{get_thread}
use spoon_microkernel.Ports.{max_ports, free_block, port_flags}
use spoon_microkernel.Messages.{is_masked, with_messages, send_message, recv_message}
use spoon_microkernel.Messages.Send.{
  CanSend, CanTell, Delivered, Waiting, stored, letter, send_message_delivers,
}
use spoon_microkernel.Messages.Mailboxes.{Mailboxes, Mailboxes-with_messages}
use spoon_microkernel.Messages.Receive.{
  Received, first_waiting, recv_message_any, recv_message_from,
}
use spoon_microkernel.Messages.Roundtrip.{recv_message-send_message}
use spoon_microkernel.Scene.{scene, no_messages}

-- Nothing waits anywhere.
abbrev empty : ℕ → List Message
empty i = []

get_or-replicate : (n i : ℕ) → get_or (replicate n free_block) i free_block ≡ free_block
get_or-replicate zero i = refl
get_or-replicate (suc n) zero = refl
get_or-replicate (suc n) (suc i) = get_or-replicate n i

free_is_masked : (i : ℕ) → is_masked scene 0 (pos (suc (suc (suc i)))) ≡ true
unfolding port_flags
free_is_masked i = elim (Bool-cases (ltb (suc (suc (suc i))) max_ports)) [
  | inl lt ↦ rw (lt, port_flags) (rw (get_or-replicate 1021 i) refl)
  | inr out ↦ rw (out, port_flags) refl
]

scene_holds : (i : ℕ) → is_masked scene 0 (pos i) ≡ false → Waiting scene 0 i []
scene_holds zero e = (no_messages, refl, init-IsValid 20 256 (omega arith), refl)
scene_holds (suc zero) e = (no_messages, refl, init-IsValid 20 256 (omega arith), refl)
scene_holds (suc (suc zero)) e = (no_messages, refl, init-IsValid 20 256 (omega arith), refl)
scene_holds (suc (suc (suc i))) e = absurd (true≢false (rw (free_is_masked i) at e))

scene-Mailboxes : Mailboxes scene 0 empty
scene-Mailboxes = record {
  all_ports = ap (λ n. 3 + n) (length-replicate 1021 free_block);
  holds = scene_holds;
}

scene-CanSend : CanSend scene 0 1 0 1 no_messages
unfolding get_thread retrieve
scene-CanSend = record {
  all_ports = ap (λ n. 3 + n) (length-replicate 1021 free_block);
  in_range = omega arith;
  owned = refl;
  thread = refl;
  held = refl;
  valid = init-IsValid 20 256 (omega arith);
  room = omega arith;
}

-- The owner of port 1 runs.
scene-CanTell :
    CanTell 0 (pos 1) 0 (stored scene 0 1 no_messages (letter (pos 7) (pos 3) 1 (65 ∷ 66 ∷ [])))
scene-CanTell = inr (inl refl)

open_port : is_masked scene 0 (pos 1) ≡ false
unfolding port_flags
open_port = refl

send_message_delivers_example :
    Returns
      (send_message (pos 7) (pos 3) 0 (pos 1) (65 ∷ 66 ∷ []) true true scene)
      (Delivered scene 0 1 0 1 no_messages scene-CanSend (pos 7) (pos 3) (65 ∷ 66 ∷ []))
send_message_delivers_example =
    send_message_delivers scene 0 1 0 1 no_messages scene-CanSend (pos 7) (pos 3) (65 ∷ 66 ∷ [])
      scene-CanTell

recv_message-send_message_example :
    Returns (send_message (pos 7) (pos 3) 0 (pos 1) (65 ∷ 66 ∷ []) true true scene) (λ r.
      Returns (recv_message 0 (pos 1) 1 r.1) (λ s. s.0 ≡ some (letter (pos 7) (pos 3) 1 (65 ∷ []))))
recv_message-send_message_example =
    recv_message-send_message scene 0 1 0 1 no_messages scene-CanSend (pos 7) (pos 3) (65 ∷ 66 ∷ [])
      empty scene-Mailboxes open_port scene-CanTell 0 1 refl refl

-- The scene with a message in port 1.
abbrev one_message : Aqueue Message
one_message = record no_messages {
  pages = 1;
  obj_count = 1;
  last_position = 1;
  chain = (some (letter (pos 7) (pos 3) 1 (65 ∷ 66 ∷ [])) ∷ []) ∷ [];
}

abbrev loaded : Kernel
loaded = with_messages scene 0 1 one_message

abbrev one_box : ℕ → List Message
one_box = update empty 1 (letter (pos 7) (pos 3) 1 (65 ∷ 66 ∷ []) ∷ [])

loaded-Mailboxes : Mailboxes loaded 0 one_box
loaded-Mailboxes =
    Mailboxes-with_messages scene-Mailboxes 1 (letter (pos 7) (pos 3) 1 (65 ∷ 66 ∷ []) ∷ [])
      one_message (omega arith) (omega arith) refl

loaded_open : is_masked loaded 0 (pos 1) ≡ false
unfolding port_flags
loaded_open = refl

-- Port 0 is empty, and the message in port 1 is found.
recv_message_any_example :
    Returns
      (recv_message 0 minus_one 8 loaded)
      (Received 0 8 (first_waiting (is_masked loaded 0) (loaded.thread 0).ports one_box))
recv_message_any_example = recv_message_any 0 loaded one_box 8 loaded-Mailboxes minus_one refl refl

found_behind :
    (first_waiting (is_masked loaded 0) (loaded.thread 0).ports one_box).0
    ≡ some (letter (pos 7) (pos 3) 1 (65 ∷ 66 ∷ []))
unfolding first_waiting port_flags
found_behind = refl

recv_message_from_example :
    Returns
      (recv_message 0 (pos 1) 1 loaded)
      (Received 0 1 (head? (one_box 1), update one_box 1 (drop 1 (one_box 1))))
recv_message_from_example = recv_message_from 0 loaded one_box 1 loaded-Mailboxes 1 loaded_open
