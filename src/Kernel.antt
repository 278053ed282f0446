-- ===== src/Kernel.antt =====
-- The state that the kernel's parts share: kernel/src/include/threads.h, process.h, ipc.h,
-- messages.h, pulse.h, scheduler.h and cpu.h. Pointers are addresses, natural numbers, and each kind
-- of object has a heap from addresses.
use spoon_microkernel.Prelude.{ℕ, Bool, Option, List, ◌==◌}
use spoon_microkernel.Prelude.Int.{ℤ}
use spoon_microkernel.Aqueue.{Aqueue}
use spoon_microkernel.Htable.{HashTable}

-- `THREAD_SYSTEM` and so on
pub data ThreadState : Type 0 where
  system running suspended dormant stopped semaphore sleeping waiting finished crashed irq :
      ThreadState

-- The values of these macros.
abbrev pub code : ThreadState → ℕ
code system = 0
code running = 1
code suspended = 2
code dormant = 3
code stopped = 4
code semaphore = 5
code sleeping = 6
code waiting = 7
code finished = 8
code crashed = 9
code irq = 10

abbrev pub same_state : ThreadState → ThreadState → Bool
same_state a b = code a == code b

-- `struct thread`. A name is its bytes up to the first 0.
pub record Thread : Type 0 where
  pub name : List ℕ
  pub tid : ℤ
  pub state : ThreadState
  pub process : ℕ
  pub duration : ℕ
  pub event_tid : ℤ
  pub ports : List ℤ
  pub last_port_pulse : ℤ
  pub last_port_message : ℤ
  pub cpu : ℤ
  pub cpu_affinity : ℤ
  pub fast_queued : ℤ

-- `struct message`, with the bytes behind `data`; their number is `bytes`.
pub record Message : Type 0 where
  pub source_pid : ℤ
  pub source_port : ℤ
  pub dest_port : ℤ
  pub data_bytes : List ℕ

-- `struct pulse`
pub record Pulse : Type 0 where
  pub source_pid : ℤ
  pub source_port : ℤ
  pub dest_port : ℤ
  pub data1 : ℕ
  pub data2 : ℕ
  pub data3 : ℕ
  pub data4 : ℕ
  pub data5 : ℕ
  pub data6 : ℕ

-- `struct ipc_block`
pub record IpcBlock : Type 0 where
  pub tid : ℤ
  pub flags : ℕ
  pub pulse_q : Option (Aqueue Pulse)
  pub message_q : Option (Aqueue Message)

-- `struct process`, as far as threads, events and ports go.
pub record Process : Type 0 where
  pub threads_htable : HashTable ℕ
  pub event_hooks : ℤ
  pub event_pid : ℤ
  pub event_tid : ℤ
  pub ipc : List IpcBlock

-- `struct paused_schedule`
pub record Paused : Type 0 where
  pub tr : Option ℕ
  pub state : ThreadState
  pub request : ℕ
  pub start : ℕ

-- `struct scheduler_info`. The queue of `struct schedule` is the list of its thread pointers.
pub record SchedulerInfo : Type 0 where
  pub current_thread : Option ℕ
  pub requesting_state : Option ThreadState
  pub requesting_thread : Option ℕ
  pub sched_queue : List (Option ℕ)
  pub pause_queue : List Paused
  pub sched_count : ℕ
  pub pause_count : ℕ
  pub sched_size : ℕ
  pub pause_size : ℕ
  pub running : ℕ
  pub idle : ℕ
  pub nested_lock : ℕ
  pub position : ℕ
  pub fast_queue : List (Option ℕ)
  pub fast_start : ℕ
  pub fast_stop : ℕ

-- The heaps, the processors' schedulers with their clocks (`st_systemTime.usage`), the number of
-- processors, and the processor that runs the code (`CPUID`).
pub record Kernel : Type 0 where
  pub thread : ℕ → Thread
  pub proc : ℕ → Process
  pub sched : ℕ → SchedulerInfo
  pub usage : ℕ → ℕ
  pub cpu_count : ℕ
  pub cpuid : ℕ
