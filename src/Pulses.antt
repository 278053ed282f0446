-- ===== src/Pulses.antt =====
-- kernel/src/pulse.c: pulses, messages of a fixed size, to the ports of a process. `page` is what
-- `malloc` answers where the queue wants a page; `aqueue_new` may then return NULL, which
-- `send_pulse` writes through: the kernel halts, `none`.
pub mod Laws
use spoon_microkernel.Prelude.{
  ℕ, zero, suc, ◌+◌, Bool, true, false, ◌&&◌, not, Option, none, some, List, [], ◌∷◌, if◌then◌else◌,
  ◌>>=◌, ◌>>◌, assert,
}
use spoon_microkernel.Prelude.Int.{ℤ, pos, negsuc, minus_one, is_neg, ◌==ℤ◌}
use spoon_microkernel.Aqueue.{Aqueue, put, pull, size, unlock}
use spoon_microkernel.Aqueue.Peek.{peek}
use spoon_microkernel.Kernel.{Kernel, Thread, Pulse, IpcBlock}
use spoon_microkernel.Sched.{on_thread}
use spoon_microkernel.Threads.{get_thread}
use spoon_microkernel.Ports.{port_index, block, set_block, port2tid}
use spoon_microkernel.Messages.{is_masked, has_port, wake}

abbrev pub with_pulses : Kernel → (proc i : ℕ) → Aqueue Pulse → Kernel
with_pulses k proc i q = set_block k proc i (record (block k proc i) { pulse_q = some q })

-- `send_pulse`, once the thread and the index are at hand.
unfoldable pub enqueue_pulse : (proc i tr : ℕ) (page : Bool) → Pulse → Kernel → Option (ℤ × Kernel)
enqueue_pulse proc i tr page p k = do
  q ← (block k proc i).pulse_q
  let (done, q') = put page p q
  assert done
  k' ← wake proc p.dest_port tr (with_pulses k proc i q')
  some (pos 0, k')

-- `send_pulse`: its source, destination port and six words are the fields of `p`.
unfoldable pub send_pulse : (proc : ℕ) (page : Bool) → Pulse → Kernel → Option (ℤ × Kernel)
unfolding enqueue_pulse
send_pulse proc page p k =
    let tid = port2tid proc p.dest_port k in
    if is_neg tid then some (minus_one, k) else (do
      found ← get_thread proc tid k
      elim found [
        | none ↦ some (minus_one, k)
        | some tr ↦ (do i ← port_index p.dest_port; enqueue_pulse proc i tr page p k)
      ])

-- `aqueue_next` on the pulse queue of a port.
unfoldable pub take_pulse : (proc i : ℕ) → Kernel → Option (Option Pulse × Kernel)
take_pulse proc i k = do
  q ← (block k proc i).pulse_q
  let (out, q') = pull q
  some (out, with_pulses k proc i q')

abbrev pub pulse_hint : Kernel → (tr : ℕ) → ℤ → Kernel
pulse_hint k tr port = on_thread k tr (record (k.thread tr) { last_port_pulse = port })

-- "Now do the rest of them" in `receive_pulse`: the first open and unmasked port decides.
unfoldable pub search_pulses : (proc : ℕ) → List ℤ → Kernel → Option (Option Pulse × Kernel)
search_pulses proc [] k = some (none, k)
search_pulses proc (port ∷ ports) k =
    let later = search_pulses proc ports k in
    if port ==ℤ minus_one
    then some (none, k)
    else if is_masked k proc port
    then later
    else (do i ← port_index port; take_pulse proc i k)

-- `receive_pulse`: the pulse, or `none` for the result -1.
unfoldable pub receive_pulse : (tr : ℕ) (dest_port : ℤ) → Kernel → Option (Option Pulse × Kernel)
unfolding search_pulses take_pulse
receive_pulse tr dest_port k =
    let t = k.thread tr in
    let port : ℤ = elim (port_index dest_port) [ none ↦ t.last_port_pulse | some _ ↦ dest_port ] in
    let k1 = pulse_hint k tr minus_one in
    elim (port_index port) [
      | some i ↦ if is_masked k1 t.process port then some (none, k1) else take_pulse t.process i k1
      | none ↦ search_pulses t.process (k1.thread tr).ports k1
    ]

-- The second loop of `preview_pulse`: here too the first open and unmasked port decides.
unfoldable pub preview_ports : (tr proc : ℕ) → List ℤ → Kernel → Option (Option Pulse × Kernel)
preview_ports tr proc [] k = some (none, k)
preview_ports tr proc (port ∷ ports) k =
    let later = preview_ports tr proc ports k in
    if port ==ℤ minus_one then some (none, k) else if is_masked k proc port then later else (do
      i ← port_index port
      q ← (block k proc i).pulse_q
      let k' = with_pulses k proc i (unlock q)
      some (elim (peek q) [ none ↦ (none, k') | some p ↦ (some p, pulse_hint k' tr port) ]))

-- `preview_pulse`
unfoldable pub preview_pulse : (tr : ℕ) (dest_port : ℤ) → Kernel → Option (Option Pulse × Kernel)
unfolding preview_ports
preview_pulse tr dest_port k =
    let t = k.thread tr in
    let window : List ℤ = elim (port_index dest_port) [
      | none ↦ t.ports
      | some _ ↦ dest_port ∷ []
    ] in
    let known : Bool = elim (port_index dest_port) [
      | none ↦ true
      | some _ ↦ has_port dest_port t.ports
    ] in
    if known then preview_ports tr t.process window (pulse_hint k tr minus_one) else some (none, k)

-- The loop of `pulses_waiting`.
unfoldable pub count_pulses : (proc count : ℕ) → List ℤ → Kernel → Option (ℕ × Kernel)
count_pulses proc count [] k = some (count, k)
count_pulses proc count (port ∷ ports) k =
    if port ==ℤ minus_one
    then some (count, k)
    else (let later = λ (c : ℕ) (k' : Kernel). count_pulses proc c ports k' in
        if is_masked k proc port then later count k else (do
          i ← port_index port
          q ← (block k proc i).pulse_q
          later (count + size q) (with_pulses k proc i (unlock q))))

-- `pulses_waiting`
unfoldable pub pulses_waiting : (tr : ℕ) → Kernel → Option (ℕ × Kernel)
unfolding count_pulses
pulses_waiting tr k = count_pulses (k.thread tr).process 0 (k.thread tr).ports k

-- "Now do the rest of them" in `drop_pulse`: the first port of the thread, masked or not.
abbrev pub drop_first_pulse : (proc : ℕ) → List ℤ → Kernel → Option (Option Pulse × Kernel)
drop_first_pulse proc [] k = some (none, k)
drop_first_pulse proc (port ∷ ports) k =
    if port ==ℤ minus_one then some (none, k) else (do i ← port_index port; take_pulse proc i k)

-- `drop_pulse`: whether a pulse was dropped (0 or -1), and the state.
unfoldable pub drop_pulse : (tr : ℕ) → Kernel → Option (Bool × Kernel)
unfolding take_pulse
drop_pulse tr k = do
  let t = k.thread tr
  let k1 = pulse_hint k tr minus_one
  (out, k2) ← elim (port_index t.last_port_pulse) [
    | some i ↦
        if is_masked k1 t.process t.last_port_pulse
        then some (none, k1)
        else take_pulse t.process i k1
    | none ↦ drop_first_pulse t.process (k1.thread tr).ports k1
  ]
  some (elim out [ none ↦ false | some p ↦ true ], k2)
