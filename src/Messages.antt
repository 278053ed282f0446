-- ===== src/Messages.antt =====
-- kernel/src/messages.c: messages to the ports of a process. The two `malloc`s of a send (for the
-- bytes, and for a page of the queue) are arguments. An assertion that fails, and a queue that is
-- NULL, halt the kernel: `none`.
pub mod Mailboxes
pub mod Receive
pub mod Roundtrip
pub mod Send
pub mod Tests
use spoon_microkernel.Prelude.{
  ℕ, zero, suc, ◌+◌, Bool, true, false, ◌&&◌, not, Option, none, some, List, [], ◌∷◌, length, take,
  ◌==◌, if◌then◌else◌, ◌>>=◌, ◌>>◌,
}
use spoon_microkernel.Prelude.Int.{ℤ, pos, negsuc, minus_one, is_neg, ◌==ℤ◌}
use spoon_microkernel.Aqueue.{Aqueue, put, pull, size, unlock}
use spoon_microkernel.Aqueue.Peek.{peek}
use spoon_microkernel.Kernel.{Kernel, Thread, Message, IpcBlock, running, dormant, same_state}
use spoon_microkernel.Sched.{on_thread}
use spoon_microkernel.Threads.{get_thread, set_thread_state}
use spoon_microkernel.Ports.{port_index, block, set_block, port2tid, port_flags, ipc_masked}

-- `port_flags( proc, port, IPC_MASKED ) != 0`: masked, or no open port.
abbrev pub is_masked : Kernel → (proc : ℕ) → (port : ℤ) → Bool
is_masked k proc port = not (port_flags proc port ipc_masked k ==ℤ pos 0)

abbrev pub with_messages : Kernel → (proc i : ℕ) → Aqueue Message → Kernel
with_messages k proc i q = set_block k proc i (record (block k proc i) { message_q = some q })

-- "Wake up the thread, maybe": the end of `send_message`, and of `send_pulse`.
unfoldable pub wake : (proc : ℕ) (port : ℤ) (tr : ℕ) → Kernel → Option Kernel
wake proc port tr k =
    if is_masked k proc port
    then some k
    else if same_state (k.thread tr).state dormant
    then set_thread_state tr running k
    else some k

-- `send_message`, once the thread, the index and the memory for the bytes are at hand.
unfoldable pub enqueue_message :
    (proc i tr : ℕ) (port : ℤ) (page : Bool) → Message → Kernel → Option (ℤ × Kernel)
enqueue_message proc i tr port page m k = do
  q ← (block k proc i).message_q
  let (done, q') = put page m q
  let k1 = with_messages k proc i q'
  if done then (do k2 ← wake proc port tr k1; some (pos 0, k2)) else some (minus_one, k1)

-- `send_message`. The bytes at `location` are given; their number is `bytes`.
unfoldable pub send_message :
    (source_pid source_port : ℤ) (proc : ℕ) (dest_port : ℤ) (location : List ℕ) (memory page : Bool)
    → Kernel
    → Option (ℤ × Kernel)
unfolding enqueue_message
send_message source_pid source_port proc dest_port location memory page k =
    let dest_tid = port2tid proc dest_port k in
    let m : Message = record {
      source_pid = source_pid;
      source_port = source_port;
      dest_port = dest_port;
      data_bytes = location;
    } in
    if is_neg dest_tid then some (minus_one, k) else (do
      found ← get_thread proc dest_tid k
      elim found [
        | none ↦ some (minus_one, k)
        | some tr ↦
            if memory
            then (do i ← port_index dest_port; enqueue_message proc i tr dest_port page m k)
            else some (minus_one, k)
      ])

-- `aqueue_next` on the message queue of a port.
unfoldable pub take_message : (proc i : ℕ) → Kernel → Option (Option Message × Kernel)
take_message proc i k = do
  q ← (block k proc i).message_q
  let (out, q') = pull q
  some (out, with_messages k proc i q')

-- What a receiver with room for `bytes` bytes gets of a message; the result is the number copied.
abbrev pub copied : (bytes : ℕ) → Message → Message
copied bytes m = record m { data_bytes = take bytes m.data_bytes }

abbrev pub message_hint : Kernel → (tr : ℕ) → ℤ → Kernel
message_hint k tr port = on_thread k tr (record (k.thread tr) { last_port_message = port })

-- "Now search everything": the first message of the first open and unmasked port that has one.
unfoldable pub search_messages : (proc : ℕ) → List ℤ → Kernel → Option (Option Message × Kernel)
search_messages proc [] k = some (none, k)
search_messages proc (port ∷ ports) k =
    if port ==ℤ minus_one
    then some (none, k)
    else (let later = λ (k' : Kernel). search_messages proc ports k' in
        if is_masked k proc port then later k else (do
          i ← port_index port
          (out, k') ← take_message proc i k
          elim out [ none ↦ later k' | some m ↦ some (some m, k') ]))

-- `recv_message`: the message as the receiver sees it, or `none` for the result -1. Its room is not
-- negative here: `memcpy` would take a negative one for a size of almost 2 ^ 32.
unfoldable pub recv_message :
    (tr : ℕ) (dest_port : ℤ) (bytes : ℕ) → Kernel → Option (Option Message × Kernel)
unfolding search_messages take_message
recv_message tr dest_port bytes k = do
  let t = k.thread tr
  let port : ℤ = elim (port_index dest_port) [ none ↦ t.last_port_message | some _ ↦ dest_port ]
  let k1 = message_hint k tr minus_one
  (out, k2) ← elim (port_index port) [
    | some i ↦ if is_masked k1 t.process port then some (none, k1) else take_message t.process i k1
    | none ↦ search_messages t.process (k1.thread tr).ports k1
  ]
  some (elim out [ none ↦ none | some m ↦ some (copied bytes m) ], k2)

-- The first loop of `peek_message` and `preview_pulse`: the port, if the thread has it before the
-- end of its list.
abbrev pub has_port : ℤ → List ℤ → Bool
has_port port [] = false
has_port port (x ∷ ports) =
    if x ==ℤ minus_one then false else (if x ==ℤ port then true else has_port port ports)

-- The second loop of `peek_message`, over the ports from `bottom` to `top`. The message found is
-- marked by the hint.
unfoldable pub peek_ports : (tr proc : ℕ) → List ℤ → Kernel → Option (Option Message × Kernel)
peek_ports tr proc [] k = some (none, k)
peek_ports tr proc (port ∷ ports) k =
    if port ==ℤ minus_one
    then some (none, k)
    else (let later = λ (k' : Kernel). peek_ports tr proc ports k' in
        if is_masked k proc port then later k else (do
          i ← port_index port
          q ← (block k proc i).message_q
          let k' = with_messages k proc i (unlock q)
          elim (peek q) [ none ↦ later k' | some m ↦ some (some m, message_hint k' tr port) ]))

-- `peek_message`: the message's header, with its length in the place of its bytes.
unfoldable pub peek_message : (tr : ℕ) (dest_port : ℤ) → Kernel → Option (Option Message × Kernel)
unfolding peek_ports
peek_message tr dest_port k =
    let t = k.thread tr in
    let window : List ℤ = elim (port_index dest_port) [
      | none ↦ t.ports
      | some _ ↦ dest_port ∷ []
    ] in
    let known : Bool = elim (port_index dest_port) [
      | none ↦ true
      | some _ ↦ has_port dest_port t.ports
    ] in
    if known then peek_ports tr t.process window (message_hint k tr minus_one) else some (none, k)

-- The loop of `messages_waiting`.
unfoldable pub count_messages : (proc count : ℕ) → List ℤ → Kernel → Option (ℕ × Kernel)
count_messages proc count [] k = some (count, k)
count_messages proc count (port ∷ ports) k =
    if port ==ℤ minus_one
    then some (count, k)
    else (let later = λ (c : ℕ) (k' : Kernel). count_messages proc c ports k' in
        if is_masked k proc port then later count k else (do
          i ← port_index port
          q ← (block k proc i).message_q
          later (count + size q) (with_messages k proc i (unlock q))))

-- `messages_waiting`
unfoldable pub messages_waiting : (tr : ℕ) → Kernel → Option (ℕ × Kernel)
unfolding count_messages
messages_waiting tr k = count_messages (k.thread tr).process 0 (k.thread tr).ports k

-- The loop of `drop_message`, which stops at the first open and unmasked port.
unfoldable pub drop_first_message : (proc : ℕ) → List ℤ → Kernel → Option (Option Message × Kernel)
drop_first_message proc [] k = some (none, k)
drop_first_message proc (port ∷ ports) k =
    let later = drop_first_message proc ports k in
    if port ==ℤ minus_one
    then some (none, k)
    else if is_masked k proc port
    then later
    else (do i ← port_index port; take_message proc i k)

-- `drop_message`: whether a message was dropped (0 or -1), and the state.
unfoldable pub drop_message : (tr : ℕ) → Kernel → Option (Bool × Kernel)
unfolding drop_first_message take_message
drop_message tr k = do
  let t = k.thread tr
  let k1 = message_hint k tr minus_one
  (out, k2) ← elim (port_index t.last_port_message) [
    | some i ↦
        if is_masked k1 t.process t.last_port_message
        then some (none, k1)
        else take_message t.process i k1
    | none ↦ drop_first_message t.process (k1.thread tr).ports k1
  ]
  some (elim out [ none ↦ false | some m ↦ true ], k2)
