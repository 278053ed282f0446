-- ===== src/Messages/Send.antt =====
-- `send_message`, up to the thread that it wakes.
use spoon_microkernel.Prelude.{
  ℕ, ◌+◌, ◌<◌, ◌≡◌, ◌≢◌, ◌⊎◌, inl, inr, refl, ap, ◌∙◌, true, false, Option, some, List, [], ◌∷◌,
  ◌++◌, word_max, length, get_or, lt→ltb, ◌>>=◌, Returns, Returns-bind, Returns-map, Returns-After,
  After, After-if, goes, Bool-cases,
}
use spoon_microkernel.Prelude.Int.{ℤ, pos}
use spoon_microkernel.Aqueue.{Aqueue, put}
use spoon_microkernel.Aqueue.Inv.{IsValid}
use spoon_microkernel.Aqueue.Fifo.{contents, contents-put, put-IsValid, put-accepts}
use spoon_microkernel.Kernel.{Kernel, Message, IpcBlock, running, dormant, same_state}
use spoon_microkernel.Threads.{get_thread}
use spoon_microkernel.Threads.Frame.{SameMail, SameMail-refl, set_thread_state-SameMail}
use spoon_microkernel.Threads.Wake.{CanWake, set_thread_state_wakes}
use spoon_microkernel.Ports.{max_ports, free_block, block, set_block, port2tid}
use spoon_microkernel.Ports.Blocks.{
  HasPorts, HasPorts-set_block, block-set_block, block-set_block_ne,
}
use spoon_microkernel.Messages.{is_masked, with_messages, wake, enqueue_message, send_message}

-- Whether the thread of a port can be told of a message: it need not, or it can wake.
abbrev pub CanTell : (proc : ℕ) (port : ℤ) (tr : ℕ) → Kernel → Type 0
CanTell proc port tr k =
    (is_masked k proc port ≡ true)
    ⊎ (same_state (k.thread tr).state dormant ≡ false)
    ⊎ ((id : ℕ) × CanWake tr id k)

wake-SameMail :
    (proc : ℕ) (port : ℤ) (tr : ℕ) (k : Kernel) → After (SameMail k) (wake proc port tr k)
unfolding wake
wake-SameMail proc port tr k = After-if (is_masked k proc port) (goes (SameMail-refl k)) (
    After-if (same_state (k.thread tr).state dormant) (set_thread_state-SameMail tr running k)
      (goes (SameMail-refl k)))

wake-Returns :
    (proc : ℕ) (port : ℤ) (tr : ℕ) (k : Kernel)
    → CanTell proc port tr k
    → Returns (wake proc port tr k) (λ k'. Unit {0})
unfolding wake
wake-Returns proc port tr k (inl masked) = rw (masked, wake) tt
wake-Returns proc port tr k (inr (inl awake)) = elim (Bool-cases (is_masked k proc port)) [
  | inl masked ↦ rw (masked, wake) tt
  | inr open_port ↦ rw (open_port, wake) (rw (awake, wake) tt)
]
wake-Returns proc port tr k (inr (inr (id, can))) = elim (Bool-cases (is_masked k proc port)) [
  | inl masked ↦ rw (masked, wake) tt
  | inr open_port ↦
      rw (open_port, wake)
        (rw (can.sleeps, wake) (Returns-map _ _ _ (λ k' h. tt) (set_thread_state_wakes can)))
]

-- The messages that wait in a port.
abbrev pub Waiting : Kernel → (proc i : ℕ) → List (Option Message) → Type 0
Waiting k proc i l =
    (q : Aqueue Message) × ((block k proc i).message_q ≡ some q) × IsValid q × (contents q ≡ l)

-- Every port but one is as before, and that one is but for its messages.
pub record OnlyMessages (proc i : ℕ) (k k' : Kernel) : Type 0 where
  pub elsewhere : (j : ℕ) → i ≢ j → block k' proc j ≡ block k proc j
  pub same_tid : (block k' proc i).tid ≡ (block k proc i).tid
  pub same_flags : (block k' proc i).flags ≡ (block k proc i).flags
  pub same_pulses : (block k' proc i).pulse_q ≡ (block k proc i).pulse_q

pub with_messages-OnlyMessages :
    (k : Kernel) (proc i : ℕ) (q : Aqueue Message)
    → HasPorts k proc
    → i < max_ports
    → OnlyMessages proc i k (with_messages k proc i q)
with_messages-OnlyMessages k proc i q h lt = record {
  elsewhere = λ j ne. block-set_block_ne k proc i j b ne;
  same_tid = ap (λ c. c.tid) here;
  same_flags = ap (λ c. c.flags) here;
  same_pulses = ap (λ c. c.pulse_q) here;
}
  where
    b : IpcBlock
    b = record (block k proc i) { message_q = some q }

    here : block (set_block k proc i b) proc i ≡ b
    here = block-set_block k proc i b h lt

-- What becomes of the ports when only scheduling goes on.
pub block-SameMail : (k k' : Kernel) (proc j : ℕ) → SameMail k k' → block k' proc j ≡ block k proc j
block-SameMail k k' proc j s = ap (λ p. get_or (p proc).ipc j free_block) s.procs

OnlyMessages-SameMail :
    {proc i : ℕ} {k k1 k2 : Kernel}
    → SameMail k1 k2
    → OnlyMessages proc i k k1
    → OnlyMessages proc i k k2
OnlyMessages-SameMail {proc} {i} {k} {k1} {k2} s o = record {
  elsewhere = λ j ne. block-SameMail k1 k2 proc j s ∙ o.elsewhere j ne;
  same_tid = ap (λ c. c.tid) (block-SameMail k1 k2 proc i s) ∙ o.same_tid;
  same_flags = ap (λ c. c.flags) (block-SameMail k1 k2 proc i s) ∙ o.same_flags;
  same_pulses = ap (λ c. c.pulse_q) (block-SameMail k1 k2 proc i s) ∙ o.same_pulses;
}

-- A message as it is stored.
abbrev pub letter : (source_pid source_port : ℤ) (i : ℕ) (location : List ℕ) → Message
letter source_pid source_port i location = record {
  source_pid = source_pid;
  source_port = source_port;
  dest_port = pos i;
  data_bytes = location;
}

-- The kernel before the thread is told.
abbrev pub stored : Kernel → (proc i : ℕ) → Aqueue Message → Message → Kernel
stored k proc i q m = with_messages k proc i (put true m q).1

-- An open port, the thread that owns it, and its queue.
pub record CanSend (k : Kernel) (proc i tr t : ℕ) (q : Aqueue Message) : Type 0 where
  pub all_ports : HasPorts k proc
  pub in_range : i < max_ports
  pub owned : (block k proc i).tid ≡ pos t
  pub thread : get_thread proc (pos t) k ≡ some (some tr)
  pub held : (block k proc i).message_q ≡ some q
  pub valid : IsValid q
  pub room : q.last_position + 1 < word_max

module _ (k : Kernel) (proc i tr t : ℕ) (q : Aqueue Message) (can : CanSend k proc i tr t q)
    (source_pid source_port : ℤ) (location : List ℕ) where
  open can use {all_ports, in_range, owned, thread, held, valid, room}

  abbrev pub m : Message
  m = letter source_pid source_port i location

  enqueue_reaches :
      enqueue_message proc i tr (pos i) true m k
      ≡ (wake proc (pos i) tr (stored k proc i q m) >>= λ k'. some (pos 0, k'))
  unfolding enqueue_message
  enqueue_reaches = rw (held, enqueue_message) (rw (put-accepts valid m room, enqueue_message) refl)

  dest : port2tid proc (pos i) k ≡ pos t
  unfolding port2tid
  dest = rw (lt→ltb i max_ports in_range, port2tid) owned

  send_reaches :
      send_message source_pid source_port proc (pos i) location true true k
      ≡ (wake proc (pos i) tr (stored k proc i q m) >>= λ k'. some (pos 0, k'))
  unfolding send_message
  send_reaches =
      rw (dest, send_message)
        (rw (thread, send_message) (rw (lt→ltb i max_ports in_range, send_message) enqueue_reaches))

  -- What a send leaves behind.
  abbrev pub Delivered : ℤ × Kernel → Type 0
  Delivered r =
      (r.0 ≡ pos 0)
      × Waiting r.1 proc i (contents q ++ (some m ∷ []))
      × OnlyMessages proc i k r.1
      × HasPorts r.1 proc
      × ((p : ℕ) → (r.1.thread p).process ≡ (k.thread p).process)

  contents_after : contents (put true m q).1 ≡ contents q ++ (some m ∷ [])
  contents_after = rw (put-accepts valid m room) at (contents-put valid true m room)

  queue_after : (block (stored k proc i q m) proc i).message_q ≡ some (put true m q).1
  queue_after =
      ap (λ c. c.message_q)
        (block-set_block k proc i (record (block k proc i) { message_q = some (put true m q).1 })
          all_ports in_range)

  after_wake : (k' : Kernel) → SameMail (stored k proc i q m) k' → Delivered (pos 0, k')
  after_wake k' s = (
    refl,
    (
      (put true m q).1,
      ap (λ c. c.message_q) (block-SameMail (stored k proc i q m) k' proc i s) ∙ queue_after,
      put-IsValid valid true m room,
      contents_after,
    ),
    OnlyMessages-SameMail s
        (with_messages-OnlyMessages k proc i (put true m q).1 all_ports in_range),
    ap (λ f. length (f proc).ipc) s.procs
        ∙ HasPorts-set_block k proc i
            (record (block k proc i) { message_q = some (put true m q).1 }) all_ports,
    (λ p. ap (λ x. x.4) (s.threads p)),
  )

  -- With memory, `send_message` to an open port whose thread can be told puts the message behind
  -- those that wait there, returns 0, and leaves every other port and the port's owner, flags and
  -- pulses alone.
  pub send_message_delivers :
      CanTell proc (pos i) tr (stored k proc i q m)
      → Returns (send_message source_pid source_port proc (pos i) location true true k) Delivered
  send_message_delivers tell = rw send_reaches (
      Returns-bind (wake proc (pos i) tr (stored k proc i q m)) (λ k'. some (pos 0, k')) _ Delivered
        (λ k' s. after_wake k' s.1)
        (Returns-After _ _ _ (wake-Returns proc (pos i) tr (stored k proc i q m) tell)
          (wake-SameMail proc (pos i) tr (stored k proc i q m))))
