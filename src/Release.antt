-- ===== src/Release.antt =====
-- kernel/src/ports.c: `release_port` and `release_thread_ports`.
pub mod Laws
use spoon_microkernel.Prelude.{
  ℕ, zero, suc, ◌+◌, Bool, true, false, ◌&&◌, not, Option, none, some, List, [], ◌∷◌, get_or, set,
  ◌==◌, if◌then◌else◌, ◌>>=◌, ◌>>◌,
}
use spoon_microkernel.Prelude.Int.{ℤ, pos, negsuc, minus_one, ◌==ℤ◌}
use spoon_microkernel.Kernel.{Kernel, Thread, IpcBlock}
use spoon_microkernel.Ports.{port_index, block, set_block, free_block, with_ports, thread_of}
use spoon_microkernel.Messages.{message_hint, drop_message}
use spoon_microkernel.Pulses.{drop_pulse}

-- `do { target->last_port_message = port; } while ( drop( target ) >= 0 );` The fuel bounds the
-- rounds.
unfoldable pub drop_all :
    (drop : ℕ → Kernel → Option (Bool × Kernel)) (fuel target : ℕ) (port : ℤ)
    → Kernel
    → Option Kernel
drop_all drop zero target port k = none
drop_all drop (suc fuel) target port k = do
  (dropped, k') ← drop target (message_hint k target port)
  elim dropped [ true ↦ drop_all drop fuel target port k' | false ↦ some k' ]

-- The loop of `release_port` over the ports of the thread: `found` once the port has been met, and
-- then each entry takes the value of the next. The last entry takes -1.
unfoldable pub unclaim : (port : ℤ) (found : Bool) → List ℤ → List ℤ
unclaim port found [] = []
unclaim port found (x ∷ ports) =
    let found' = if x ==ℤ port then true else found in
    let rest = unclaim port found' ports in
    if x ==ℤ minus_one
    then x ∷ ports
    else (if found' then elim ports [ [] ↦ minus_one ∷ [] | y ∷ _ ↦ y ∷ rest ] else x ∷ rest)

-- "Drop whatever was there": the pulses, then the messages.
unfoldable pub drop_waiting : (fuel : ℕ) (target : Option ℕ) (port : ℤ) → Kernel → Option Kernel
unfolding drop_all
drop_waiting fuel none port k = some k
drop_waiting fuel (some target) port k = do
  k1 ← drop_all drop_pulse fuel target port k
  drop_all drop_message fuel target port k1

-- The rest of `release_port`: the queues are reset and freed, the block is free again, and the
-- thread's list of ports closes up. A queue that is NULL halts the kernel.
unfoldable pub close_port :
    (proc i : ℕ) (target : Option ℕ) (port : ℤ) → Kernel → Option (ℤ × Kernel)
unfolding unclaim
close_port proc i target port k = do
  _ ← (block k proc i).pulse_q
  _ ← (block k proc i).message_q
  let k' = set_block k proc i free_block
  some (elim target [
    | none ↦ (pos 0, k')
    | some tr ↦ (pos 0, with_ports k' tr (unclaim port false (k'.thread tr).ports))
  ])

-- `release_port`
unfoldable pub release_port : (fuel tr : ℕ) (port : ℤ) → Kernel → Option (ℤ × Kernel)
unfolding drop_waiting close_port
release_port fuel tr port k =
    let proc = (k.thread tr).process in
    elim (port_index port) [
      | none ↦ some (minus_one, k)
      | some i ↦
          let tid = (block k proc i).tid in
          if tid ==ℤ minus_one then some (minus_one, k) else (do
            target ← thread_of proc tr tid k
            k1 ← drop_waiting fuel target port k
            close_port proc i target port k1)
    ]

-- `release_thread_ports`, with the number of ports released; the fuel bounds the rounds here and in
-- each release.
unfoldable pub release_thread_ports : (fuel drops tr : ℕ) → Kernel → Option (ℕ × Kernel)
release_thread_ports zero drops tr k = none
release_thread_ports (suc fuel) drops tr k =
    let port = get_or (k.thread tr).ports 0 minus_one in
    elim (port ==ℤ minus_one) [
      | true ↦ some (0, k)
      | false ↦ (do
        (_, k1) ← release_port drops tr port k
        (count, k2) ← release_thread_ports fuel drops tr k1
        some (count + 1, k2))
    ]
