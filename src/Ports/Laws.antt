-- ===== src/Ports/Laws.antt =====
-- `create_port`, the lookups between ports and threads, and the flags.
use spoon_microkernel.Prelude.{
  ℕ, zero, suc, ◌+◌, ◌<◌, ◌≡◌, ◌≢◌, refl, ap, ◌∙◌, Bool, true, false, ◌&&◌, none, some, List, [],
  ◌∷◌, length, get_or, arith, Bool-cases, inl, inr, lt→ltb, update_self, ◌++◌, All, Returns,
}
use spoon_microkernel.Prelude.Int.{ℤ, pos, negsuc, minus_one, ◌==ℤ◌, ==ℤ_iff, to_int32}
use spoon_microkernel.Aqueue.{init}
use spoon_microkernel.Kernel.{Kernel, IpcBlock}
use spoon_microkernel.Ports.{
  max_ports, pulse_objects, message_objects, sizeof_pulse, sizeof_message, block, set_block,
  free_block, claim, thread_of, create_port, open_port, tid2port, find_port, get_port_flags,
  set_port_flags, forget_hints, port_index,
}
use spoon_microkernel.Ports.Blocks.{HasPorts, block-set_block, block-set_block_ne}

-- A port just opened for a thread.
abbrev pub opened : ℤ → IpcBlock
opened tid = record {
  tid = tid;
  flags = 0;
  pulse_q = some (init sizeof_pulse pulse_objects);
  message_q = some (init sizeof_message message_objects);
}

-- Past its guards `create_port` opens the port.
create_port_reaches :
    (k : Kernel) (tr i target : ℕ) (tid : ℤ) (pulses messages : Bool)
    → i < max_ports
    → (block k (k.thread tr).process i).tid ≡ minus_one
    → thread_of (k.thread tr).process tr tid k ≡ some (some target)
    → create_port tr (pos i) tid pulses messages k
      ≡ some (open_port (k.thread tr).process i target tid (pos i) pulses messages k)
unfolding create_port
create_port_reaches k tr i target tid pulses messages lt free who =
    rw (lt→ltb i max_ports lt, create_port) (rw (free, create_port) (rw (who, create_port) refl))

-- The first free entry takes the port.
claim_lem :
    (port : ℤ) (used unused : List ℤ)
    → All (λ p. p ≢ minus_one) used
    → claim port (used ++ minus_one ∷ unused) ≡ used ++ port ∷ unused
unfolding claim
claim_lem port [] unused h = refl
claim_lem port (x ∷ used) unused (out, h) = elim (Bool-cases (x ==ℤ minus_one)) [
  | inl same ↦ absurd (out ((==ℤ_iff x minus_one).0 same))
  | inr other ↦ rw other (ap (λ (l : List ℤ). x ∷ l) (claim_lem port used unused h))
]

module _ (k : Kernel) (tr i : ℕ) (tid : ℤ) where
  -- With memory, a free port of the process, and a thread of that number with a free entry, an entry of
  -- -1, in its list of ports, `create_port` returns 0. The port is then open with two empty queues and no
  -- flags, the first free entry of the thread's list holds its number and the other entries are as
  -- before, and so is every other port.
  pub create_port_opens :
      (target : ℕ) (used unused : List ℤ)
      → HasPorts k (k.thread tr).process
      → i < max_ports
      → (block k (k.thread tr).process i).tid ≡ minus_one
      → thread_of (k.thread tr).process tr tid k ≡ some (some target)
      → (k.thread target).ports ≡ used ++ minus_one ∷ unused
      → All (λ p. p ≢ minus_one) used
      → Returns (create_port tr (pos i) tid true true k) (λ r.
        (r.0 ≡ pos 0)
        × (block r.1 (k.thread tr).process i ≡ opened tid)
        × ((j : ℕ) → i ≢ j → block r.1 (k.thread tr).process j ≡ block k (k.thread tr).process j)
        × ((r.1.thread target).ports ≡ used ++ pos i ∷ unused))
  unfolding open_port
  create_port_opens target used unused h lt free who entries first =
      rw (create_port_reaches k tr i target tid true true lt free who) (
        refl,
        block-set_block k (k.thread tr).process i (opened tid) h lt,
        (λ j ne. block-set_block_ne k (k.thread tr).process i j (opened tid) ne),
        ap (λ t. t.ports)
              (update_self k.thread target
                (record (k.thread target) { ports = claim (pos i) (k.thread target).ports }))
            ∙ ap (claim (pos i)) entries
            ∙ claim_lem (pos i) used unused first,
      )

  -- `create_port` refuses with -1, and changes nothing, a number out of range, a port in use, and a
  -- thread that does not exist.
  pub create_port_refuses :
      (port : ℤ) (pulses messages : Bool)
      → (port_index port ≡ none → create_port tr port tid pulses messages k ≡ some (minus_one, k))
        × (port_index port ≡ some i
            → ((block k (k.thread tr).process i).tid ==ℤ minus_one) ≡ false
            → create_port tr port tid pulses messages k ≡ some (minus_one, k))
        × (port_index port ≡ some i
            → thread_of (k.thread tr).process tr tid k ≡ some none
            → create_port tr port tid pulses messages k ≡ some (minus_one, k))
  unfolding create_port
  create_port_refuses port pulses messages = (
    λ out. rw (out, create_port),
    λ within used. rw (within, create_port) (rw (used, create_port)),
    λ within nobody.
        rw (within, create_port)
          (elim (Bool-cases ((block k (k.thread tr).process i).tid ==ℤ minus_one)) [
            | inl free ↦ rw (free, create_port) (rw (nobody, create_port))
            | inr used ↦ rw (used, create_port)
          ]),
  )

  -- Without memory for one of the queues of a free port the result is -1, the port stays free and holds no queue.
  pub create_port_no_memory :
      (target : ℕ) (pulses messages : Bool)
      → HasPorts k (k.thread tr).process
      → i < max_ports
      → block k (k.thread tr).process i ≡ free_block
      → thread_of (k.thread tr).process tr tid k ≡ some (some target)
      → (pulses && messages) ≡ false
      → Returns (create_port tr (pos i) tid pulses messages k) (λ r.
        (r.0 ≡ minus_one)
        × (block r.1 (k.thread tr).process i ≡ free_block)
        × (r.1.thread ≡ k.thread))
  unfolding open_port
  create_port_no_memory target false messages h lt free who short =
      rw (create_port_reaches k tr i target tid false messages lt (ap (λ b. b.tid) free) who) (
        refl,
        block-set_block k (k.thread tr).process i _ h lt
            ∙ ap {A = IpcBlock} (λ b. record b { pulse_q = none }) free,
        refl,
      )
  create_port_no_memory target true false h lt free who short =
      rw (create_port_reaches k tr i target tid true false lt (ap (λ b. b.tid) free) who) (
        refl,
        block-set_block k (k.thread tr).process i _ h lt
            ∙ ap {A = IpcBlock} (λ b. record b { pulse_q = none; message_q = none }) free,
        refl,
      )
  create_port_no_memory target true true h lt free who short = cc

-- The search of `tid2port`: the first block of the thread, or -1 where it has none.
abbrev pub IsFirst : ℤ → List IpcBlock → (start : ℕ) → ℤ → Type 0
IsFirst tid blocks start (negsuc n) =
    (j : ℕ) → j < length blocks → ((get_or blocks j free_block).tid ==ℤ tid) ≡ false
IsFirst tid blocks start (pos p) =
    (j : ℕ) × (p ≡ start + j)
    × (j < length blocks)
    × ((get_or blocks j free_block).tid ≡ tid)
    × ((e : ℕ) → e < j → ((get_or blocks e free_block).tid ==ℤ tid) ≡ false)

find_port-IsFirst :
    (tid : ℤ) (start : ℕ) (blocks : List IpcBlock)
    → IsFirst tid blocks start (find_port tid start blocks)
unfolding find_port
find_port-IsFirst tid start [] = λ j lt. absurd (omega arith)
find_port-IsFirst tid start (b ∷ blocks) = elim (Bool-cases (b.tid ==ℤ tid)) [
  | inl here ↦
      rw (here, find_port)
        (0, omega arith, omega arith, (==ℤ_iff b.tid tid).0 here, λ e lt. absurd (omega arith))
  | inr there ↦
      rw (there, find_port)
        (later (find_port tid (start + 1) blocks) there (find_port-IsFirst tid (start + 1) blocks))
]
  where
    past :
        (b.tid ==ℤ tid) ≡ false
        → (bound : ℕ) → ((j : ℕ) → j < bound → ((get_or blocks j free_block).tid ==ℤ tid) ≡ false)
        → (j : ℕ) → j < suc bound
        → ((get_or {A = IpcBlock} (b ∷ blocks) j free_block).tid ==ℤ tid) ≡ false
    past there bound h zero lt = there
    past there bound h (suc j) lt = h j (omega arith)

    later :
        (r : ℤ)
        → (b.tid ==ℤ tid) ≡ false
        → IsFirst tid blocks (start + 1) r
        → IsFirst tid (b ∷ blocks) start r
    later (negsuc n) there h = past there (length blocks) h
    later (pos p) there (j, at, lt, same, first) =
        (suc j, omega arith, omega arith, same, past there j first)

-- `tid2port` returns the first port of the process that belongs to the thread, and -1 exactly if
-- there is none.
pub tid2port-IsFirst :
    (k : Kernel) (proc : ℕ) (tid : ℤ) → IsFirst tid (k.proc proc).ipc 0 (tid2port proc tid k)
unfolding tid2port
tid2port-IsFirst k proc tid = find_port-IsFirst tid 0 (k.proc proc).ipc

get_port_flags_at :
    (k : Kernel) (tr i : ℕ) (b : IpcBlock)
    → i < max_ports
    → block k (k.thread tr).process i ≡ b
    → (b.tid ==ℤ minus_one) ≡ false
    → get_port_flags tr (pos i) k ≡ to_int32 b.flags
unfolding get_port_flags
get_port_flags_at k tr i b lt e used =
    rw (lt→ltb i max_ports lt, get_port_flags) (rw (e, get_port_flags) (rw used))

-- The block that `set_port_flags` writes, past its guards.
set_port_flags_reaches :
    (k : Kernel) (tr i flags : ℕ)
    → i < max_ports
    → ((block k (k.thread tr).process i).tid ==ℤ minus_one) ≡ false
    → set_port_flags tr (pos i) flags k ≡ (
      pos 0,
      set_block
          (forget_hints k tr)
          (k.thread tr).process
          i
          (record (block k (k.thread tr).process i) { flags = flags }),
    )
unfolding set_port_flags
set_port_flags_reaches k tr i flags lt used =
    rw (lt→ltb i max_ports lt, set_port_flags) (rw (used, set_port_flags) refl)

-- What `set_port_flags` writes to an open port is what `get_port_flags` then reads, as an `int`, and both
-- hints of the thread are forgotten.
pub get_port_flags-set_port_flags :
    (k : Kernel) (tr i flags : ℕ)
    → HasPorts k (k.thread tr).process
    → i < max_ports
    → ((block k (k.thread tr).process i).tid ==ℤ minus_one) ≡ false
    → let (rc, k') = set_port_flags tr (pos i) flags k in
      (rc ≡ pos 0)
      × (get_port_flags tr (pos i) k' ≡ to_int32 flags)
      × ((k'.thread tr).last_port_message ≡ minus_one)
      × ((k'.thread tr).last_port_pulse ≡ minus_one)
get_port_flags-set_port_flags k tr i flags h lt used =
    rw (set_port_flags_reaches k tr i flags lt used) (
      refl,
      get_port_flags_at written tr i changed lt
          (ap (λ p. block written p i) same
            ∙ block-set_block (forget_hints k tr) (k.thread tr).process i changed h lt)
          used,
      ap (λ t. t.last_port_message) here,
      ap (λ t. t.last_port_pulse) here,
    )
  where
    changed : IpcBlock
    changed = record (block k (k.thread tr).process i) { flags = flags }

    written : Kernel
    written = set_block (forget_hints k tr) (k.thread tr).process i changed

    here :
        written.thread tr
        ≡ record (k.thread tr) { last_port_message = minus_one; last_port_pulse = minus_one }
    here = update_self k.thread tr _

    same : (written.thread tr).process ≡ (k.thread tr).process
    same = ap (λ t. t.process) here
