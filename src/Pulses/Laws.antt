-- ===== src/Pulses/Laws.antt =====
-- Which port `receive_pulse` reads, and what `send_pulse` does without memory.
use spoon_microkernel.Prelude.{
  ℕ, ◌<◌, ◌≡◌, refl, ap, Bool, false, Option, none, some, List, [], ◌∷◌, lt→ltb, if◌then◌else◌,
  update_self, Bool-cases, inl, inr,
}
use spoon_microkernel.Prelude.Int.{ℤ, pos, negsuc, minus_one, ◌==ℤ◌}
use spoon_microkernel.Aqueue.{Aqueue, put}
use spoon_microkernel.Kernel.{Kernel, Pulse}
use spoon_microkernel.Threads.{get_thread}
use spoon_microkernel.Ports.{max_ports, block, port_index, port2tid, port_flags}
use spoon_microkernel.Messages.{is_masked}
use spoon_microkernel.Messages.Mailboxes.{unmasked_lt}
use spoon_microkernel.Pulses.{
  pulse_hint, take_pulse, search_pulses, receive_pulse, enqueue_pulse, send_pulse,
}

-- The first port before the first -1 that is not masked.
unfoldable pub first_open : (masked : ℤ → Bool) → List ℤ → Option ℕ
first_open masked [] = none
first_open masked (negsuc n ∷ ports) =
    let later = first_open masked ports in if negsuc n ==ℤ minus_one then none else later
first_open masked (pos i ∷ ports) =
    let later = first_open masked ports in if masked (pos i) then later else some i

search_negative :
    (n : ℕ) (ports : List ℤ) (proc : ℕ) (k : Kernel)
    → search_pulses proc (negsuc n ∷ ports) k
      ≡ (if negsuc n ==ℤ minus_one then some (none, k) else search_pulses proc ports k)
unfolding search_pulses port_flags
search_negative n ports proc k = refl

-- The search goes on at a port that is masked, and ends at the first that is not.
search_pulses_lem :
    (ports : List ℤ) (proc : ℕ) (k : Kernel)
    → search_pulses proc ports k ≡ elim (first_open (is_masked k proc) ports) [
      | none ↦ some (none, k)
      | some i ↦ take_pulse proc i k
    ]
unfolding search_pulses first_open
search_pulses_lem [] proc k = refl
search_pulses_lem (negsuc n ∷ ports) proc k =
    rw (search_negative n ports proc k) (elim (Bool-cases (negsuc n ==ℤ minus_one)) [
      | inl end ↦ rw end refl
      | inr more ↦ rw more (search_pulses_lem ports proc k)
    ])
search_pulses_lem (pos i ∷ ports) proc k = elim (Bool-cases (is_masked k proc (pos i))) [
  | inl masked ↦ rw (masked) (search_pulses_lem ports proc k)
  | inr open_port ↦
      let lt = unmasked_lt k proc i open_port in rw open_port (rw (lt→ltb i max_ports lt) refl)
]

-- Without a port and without a hint `receive_pulse` reads the first port of the thread that is not
-- masked, and no other: where that port has no pulse it returns -1, whatever waits in later ports.
pub receive_pulse_any :
    (tr : ℕ) (k : Kernel) (dest_port : ℤ)
    → port_index dest_port ≡ none
    → port_index (k.thread tr).last_port_pulse ≡ none
    → receive_pulse tr dest_port k
      ≡ elim (first_open (is_masked k (k.thread tr).process) (k.thread tr).ports) [
        | none ↦ some (none, pulse_hint k tr minus_one)
        | some i ↦ take_pulse (k.thread tr).process i (pulse_hint k tr minus_one)
      ]
unfolding receive_pulse port_flags
receive_pulse_any tr k dest_port nowhere no_hint =
    rw (nowhere, receive_pulse)
      (rw (no_hint, receive_pulse)
        (rw
          (ap (λ t. t.ports)
            (update_self k.thread tr (record (k.thread tr) { last_port_pulse = minus_one })))
          (search_pulses_lem (k.thread tr).ports (k.thread tr).process
            (pulse_hint k tr minus_one))))

enqueue_pulse_halts :
    (k : Kernel) (proc i tr : ℕ) (q : Aqueue Pulse) (p : Pulse)
    → (block k proc i).pulse_q ≡ some q
    → (put false p q).0 ≡ false
    → enqueue_pulse proc i tr false p k ≡ none
unfolding enqueue_pulse
enqueue_pulse_halts k proc i tr q p held full =
    rw (held, enqueue_pulse) (rw (full, enqueue_pulse) refl)

-- Where the queue of the port wants a page and there is no memory for one, `send_pulse` does not
-- return: it writes through the NULL that `aqueue_new` gave.
pub send_pulse_halts :
    (k : Kernel) (proc i tr t : ℕ) (q : Aqueue Pulse) (p : Pulse)
    → p.dest_port ≡ pos i
    → i < max_ports
    → (block k proc i).tid ≡ pos t
    → get_thread proc (pos t) k ≡ some (some tr)
    → (block k proc i).pulse_q ≡ some q
    → (put false p q).0 ≡ false
    → send_pulse proc false p k ≡ none
unfolding send_pulse port2tid
send_pulse_halts k proc i tr t q p to lt owned thread held full =
    rw (dest, send_pulse)
      (rw (thread, send_pulse)
        (rw (index, send_pulse) (enqueue_pulse_halts k proc i tr q p held full)))
  where
    index : port_index p.dest_port ≡ some i
    index = rw to (rw (lt→ltb i max_ports lt) refl)

    dest : port2tid proc p.dest_port k ≡ pos t
    dest = rw (index, port2tid) owned
