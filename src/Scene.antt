-- ===== src/Scene.antt =====
-- A kernel with one process, two threads and three open ports, on which the theorems are tried.
pub mod Tests
use spoon_microkernel.Prelude.{
  ℕ, Bool, true, false, Option, none, some, List, [], ◌∷◌, ◌==◌, if◌then◌else◌, replicate,
}
use spoon_microkernel.Prelude.Int.{ℤ, pos, negsuc, minus_one}
use spoon_microkernel.Aqueue.{Aqueue, init}
use spoon_microkernel.Kernel.{
  Kernel, Thread, ThreadState, running, dormant, system, Process, IpcBlock, Pulse, Message,
  SchedulerInfo, Paused,
}
use spoon_microkernel.Ports.{
  free_block, sizeof_pulse, pulse_objects, sizeof_message, message_objects,
}

-- A running thread with two ports.
abbrev pub server : Thread
server = record {
  name = [];
  tid = pos 1;
  state = running;
  process = 0;
  duration = 0;
  event_tid = minus_one;
  ports = pos 0 ∷ pos 1 ∷ minus_one ∷ minus_one ∷ [];
  last_port_pulse = minus_one;
  last_port_message = minus_one;
  cpu = pos 0;
  cpu_affinity = pos 0;
  fast_queued = minus_one;
}

-- A dormant thread with one port.
abbrev pub sleeper : Thread
sleeper = record server {
  tid = pos 2;
  state = dormant;
  ports = pos 2 ∷ minus_one ∷ [];
  cpu = minus_one;
  cpu_affinity = minus_one;
}

abbrev pub no_messages : Aqueue Message
no_messages = init sizeof_message message_objects

abbrev pub no_pulses : Aqueue Pulse
no_pulses = init sizeof_pulse pulse_objects

-- A pulse to port 1.
abbrev pub signal : Pulse
signal = record {
  source_pid = pos 7;
  source_port = pos 0;
  dest_port = pos 1;
  data1 = 11;
  data2 = 12;
  data3 = 13;
  data4 = 14;
  data5 = 15;
  data6 = 16;
}

-- A queue of one pulse, with one slot to a page.
abbrev pub one_pulse : Aqueue Pulse
one_pulse = record {
  pages = 1;
  obj_size = 36;
  obj_count = 1;
  position = 0;
  last_position = 1;
  staging = 0;
  chain = (some signal ∷ []) ∷ [];
}

abbrev pub port_of : ℤ → Aqueue Pulse → IpcBlock
port_of tid pulses = record {
  tid = tid;
  flags = 0;
  pulse_q = some pulses;
  message_q = some no_messages;
}

-- Port 0 is empty, and in port 1 of the same thread a pulse waits.
abbrev pub ports : List IpcBlock
ports =
    port_of (pos 1) no_pulses
    ∷ port_of (pos 1) one_pulse
    ∷ port_of (pos 2) no_pulses
    ∷ replicate 1021 free_block

abbrev pub process : Process
process = record {
  threads_htable = record {
    total = 2;
    size = 4;
    percent = 80;
    table = some 0 ∷ some 5 ∷ none ∷ none ∷ [];
  };
  event_hooks = pos 0;
  event_pid = minus_one;
  event_tid = minus_one;
  ipc = ports;
}

-- The scheduler of the only processor: the server runs, and another thread waits for its turn.
abbrev pub scheduler : SchedulerInfo
scheduler = record {
  current_thread = some 0;
  requesting_state = none;
  requesting_thread = none;
  sched_queue = some 0 ∷ some 9 ∷ none ∷ none ∷ [];
  pause_queue = [];
  sched_count = 2;
  pause_count = 0;
  sched_size = 4;
  pause_size = 0;
  running = 1;
  idle = 0;
  nested_lock = 0;
  position = 0;
  fast_queue = [];
  fast_start = 0;
  fast_stop = 0;
}

abbrev pub scene : Kernel
scene = record {
  thread = λ p. if p == 5 then sleeper else server;
  proc = λ p. process;
  sched = λ c. scheduler;
  usage = λ c. 0;
  cpu_count = 1;
  cpuid = 0;
}
