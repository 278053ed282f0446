-- ===== src/Ports.antt =====
-- kernel/src/ports.c and kernel/src/include/ipc.h: the ports of a process. `release_port` and
-- `release_thread_ports` stand in Release.
pub mod Blocks
pub mod Laws
use Prim.Native.Nat.{bit_and}
use spoon_microkernel.Prelude.{
  ℕ, zero, suc, ◌+◌, Bool, true, false, not, Option, none, some, List, [], ◌∷◌, get_or, set, ltb,
  ◌==◌, if◌then◌else◌, update, ◌>>=◌,
}
use spoon_microkernel.Prelude.Int.{ℤ, pos, negsuc, minus_one, is_neg, ◌==ℤ◌, to_int32}
use spoon_microkernel.Aqueue.{init}
use spoon_microkernel.Kernel.{Kernel, Thread, Process, IpcBlock}
use spoon_microkernel.Sched.{on_thread}
use spoon_microkernel.Threads.{get_thread}

-- `MAX_PORTS`, `IPC_MASKED`, `PULSE_OBJECTS`, `MESSAGE_OBJECTS`, and the sizes of the packed structs.
abbrev pub max_ports : ℕ
max_ports = 1024

abbrev pub ipc_masked : ℕ
ipc_masked = 1

abbrev pub pulse_objects : ℕ
pulse_objects = 1024

abbrev pub message_objects : ℕ
message_objects = 256

abbrev pub sizeof_pulse : ℕ
sizeof_pulse = 36

abbrev pub sizeof_message : ℕ
sizeof_message = 20

-- The test `(port >= 0) && (port < MAX_PORTS)`, with the index that it allows.
abbrev pub port_index : ℤ → Option ℕ
port_index (pos n) = if ltb n max_ports then some n else none
port_index (negsuc n) = none

-- A port as `new_process` leaves it.
abbrev pub free_block : IpcBlock
free_block = record { tid = minus_one; flags = 0; pulse_q = none; message_q = none }

-- `proc->ipc[i]`, read and written.
abbrev pub block : Kernel → (proc i : ℕ) → IpcBlock
block k proc i = get_or (k.proc proc).ipc i free_block

abbrev pub set_block : Kernel → (proc i : ℕ) → IpcBlock → Kernel
set_block k proc i b = record k {
  proc = update k.proc proc (record (k.proc proc) { ipc = set (k.proc proc).ipc i b });
}

-- `tr->ports[i] = port` at the first free entry, if there is one.
unfoldable pub claim : ℤ → List ℤ → List ℤ
claim port [] = []
claim port (x ∷ ports) = if x ==ℤ minus_one then port ∷ ports else x ∷ claim port ports

abbrev pub with_ports : Kernel → (tr : ℕ) → List ℤ → Kernel
with_ports k tr ports = on_thread k tr (record (k.thread tr) { ports = ports })

-- The thread with a number, which is looked up if it is not the caller.
abbrev pub thread_of : (proc tr : ℕ) (tid : ℤ) → Kernel → Option (Option ℕ)
thread_of proc tr tid k =
    if (k.thread tr).tid ==ℤ tid then some (some tr) else get_thread proc tid k

-- What `create_port` does once the thread is known, by what the two `malloc`s return.
unfoldable pub open_port :
    (proc i target : ℕ) (tid port : ℤ) (pulses messages : Bool) → Kernel → ℤ × Kernel
unfolding claim
open_port proc i target tid port false messages k =
    (minus_one, set_block k proc i (record (block k proc i) { pulse_q = none }))
open_port proc i target tid port true false k =
    (minus_one, set_block k proc i (record (block k proc i) { pulse_q = none; message_q = none }))
open_port proc i target tid port true true k =
    let opened = set_block k proc i (record {
      tid = tid;
      flags = 0;
      pulse_q = some (init sizeof_pulse pulse_objects);
      message_q = some (init sizeof_message message_objects);
    }) in
    (pos 0, with_ports opened target (claim port (opened.thread target).ports))

-- `create_port`; it halts where `get_thread` does.
unfoldable pub create_port :
    (tr : ℕ) (port tid : ℤ) (pulses messages : Bool) → Kernel → Option (ℤ × Kernel)
create_port tr port tid pulses messages k =
    let proc = (k.thread tr).process in
    elim (port_index port) [
      | none ↦ some (minus_one, k)
      | some i ↦ if not ((block k proc i).tid ==ℤ minus_one) then some (minus_one, k) else (do
        found ← thread_of proc tr tid k
        some (elim found [
          | none ↦ (minus_one, k)
          | some target ↦ open_port proc i target tid port pulses messages k
        ]))
    ]

-- `port2tid`
unfoldable pub port2tid : (proc : ℕ) (port : ℤ) → Kernel → ℤ
port2tid proc port k = elim (port_index port) [ none ↦ minus_one | some i ↦ (block k proc i).tid ]

-- The loop of `tid2port`, over the blocks from place `i` on.
unfoldable pub find_port : (tid : ℤ) (i : ℕ) → List IpcBlock → ℤ
find_port tid i [] = minus_one
find_port tid i (b ∷ blocks) = if b.tid ==ℤ tid then pos i else find_port tid (i + 1) blocks

-- `tid2port`
unfoldable pub tid2port : (proc : ℕ) (tid : ℤ) → Kernel → ℤ
unfolding find_port
tid2port proc tid k = find_port tid 0 (k.proc proc).ipc

-- `port_flags`
unfoldable pub port_flags : (proc : ℕ) (port : ℤ) (flags : ℕ) → Kernel → ℤ
port_flags proc port flags k = elim (port_index port) [
  | none ↦ minus_one
  | some i ↦
      if (block k proc i).tid ==ℤ minus_one
      then minus_one
      else to_int32 (bit_and (block k proc i).flags flags)
]

-- `get_port_flags`
unfoldable pub get_port_flags : (tr : ℕ) (port : ℤ) → Kernel → ℤ
get_port_flags tr port k =
    let proc = (k.thread tr).process in
    elim (port_index port) [
      | none ↦ minus_one
      | some i ↦
          if (block k proc i).tid ==ℤ minus_one then minus_one else to_int32 (block k proc i).flags
    ]

-- The loop of `set_port_flags` over the ports of a thread, which ends at -1. Another entry that is
-- no index would be a write outside the array; here such a negative entry ends the loop too, and one
-- past the end changes nothing.
unfoldable pub set_all_flags : (proc flags : ℕ) → List ℤ → Kernel → Kernel
set_all_flags proc flags [] k = k
set_all_flags proc flags (negsuc n ∷ ports) k = k
set_all_flags proc flags (pos i ∷ ports) k =
    set_all_flags proc flags ports (set_block k proc i (record (block k proc i) { flags = flags }))

abbrev pub forget_hints : Kernel → ℕ → Kernel
forget_hints k tr =
    on_thread k tr
      (record (k.thread tr) { last_port_message = minus_one; last_port_pulse = minus_one })

-- `set_port_flags`. The port -1 stands for all ports of the thread.
unfoldable pub set_port_flags : (tr : ℕ) (port : ℤ) (flags : ℕ) → Kernel → ℤ × Kernel
unfolding set_all_flags
set_port_flags tr (negsuc (suc n)) flags k = (minus_one, k)
set_port_flags tr (negsuc zero) flags k =
    let k' = forget_hints k tr in
    (pos 0, set_all_flags (k.thread tr).process flags (k'.thread tr).ports k')
set_port_flags tr (pos i) flags k =
    let proc = (k.thread tr).process in
    let k' = forget_hints k tr in
    if not (ltb i max_ports)
    then (minus_one, k)
    else if (block k' proc i).tid ==ℤ minus_one
    then (minus_one, k')
    else (pos 0, set_block k' proc i (record (block k' proc i) { flags = flags }))

-- `struct port_pair`
pub record PortPair : Type 0 where
  pub port : ℤ
  pub flags : ℤ

-- The loop of `bulk_get_ports`: the pairs written, the last with the -1 that ends the list (its
-- `flags` are not written).
unfoldable pub get_pairs : (tr : ℕ) → List ℤ → Kernel → List PortPair
get_pairs tr [] k = []
get_pairs tr (port ∷ ports) k =
    let rest = get_pairs tr ports k in
    if port ==ℤ minus_one
    then record { port = port; flags = pos 0 } ∷ []
    else record { port = port; flags = get_port_flags tr port k } ∷ rest

-- `bulk_get_ports`
unfoldable pub bulk_get_ports : (tr : ℕ) → Kernel → List PortPair
unfolding get_pairs get_port_flags
bulk_get_ports tr k = get_pairs tr (k.thread tr).ports k

-- `bulk_set_ports`: the caller's pairs, each with its flags as unsigned.
unfoldable pub bulk_set_ports : (tr : ℕ) → List (ℤ × ℕ) → Kernel → Kernel
unfolding set_port_flags
bulk_set_ports tr [] k = k
bulk_set_ports tr ((port, flags) ∷ pairs) k =
    let rest = bulk_set_ports tr pairs (set_port_flags tr port flags k).1 in
    if port ==ℤ minus_one then k else rest
