-- ===== src/Timers/Pausing.antt =====
-- `pause` of the thread that runs.
use spoon_microkernel.Prelude.{
  ℕ, ◌+◌, ◌%◌, ◌^◌, ◌<◌, ◌≤◌, ◌≡◌, refl, ap, ◌∙◌, true, false, some, length, ltb, ◌==◌, insert_at,
  update, update_self, arith, Returns, Returns-map,
}
use spoon_microkernel.Prelude.Int.{ℤ, pos, ◌==ℤ◌}
use spoon_microkernel.Kernel.{Kernel, running, dormant, Paused, SchedulerInfo}
use spoon_microkernel.Sched.{on_cpu, on_thread, sched_unlock}
use spoon_microkernel.Sched.Locked.{locks, unlocks}
use spoon_microkernel.Threads.{set_thread_state}
use spoon_microkernel.Timers.{place_for, insert_pause, pause_locked, pause}
use spoon_microkernel.Timers.Order.{paused, AreFrom, insert_pause_lem}

-- The entry that `pause` makes of a thread.
abbrev pub entry_of : (tr milliseconds : ℕ) → Kernel → Paused
entry_of tr milliseconds k = record {
  tr = some tr;
  state = (k.thread tr).state;
  request = (milliseconds + k.usage k.cpuid) % 2 ^ 64;
  start = k.usage k.cpuid;
}

-- The thread that a processor runs, with room in the pause queue.
pub record CanPause (tr : ℕ) (k : Kernel) : Type 0 where
  pub exists : k.cpuid < k.cpu_count
  pub free : (k.sched k.cpuid).nested_lock ≡ 0
  pub current : (k.sched k.cpuid).current_thread ≡ some tr
  pub runs : (k.thread tr).state ≡ running
  pub here : (k.thread tr).cpu ≡ pos k.cpuid
  pub room : (k.sched k.cpuid).pause_count < (k.sched k.cpuid).pause_size
  pub sized : (k.sched k.cpuid).pause_size ≤ length (k.sched k.cpuid).pause_queue

-- What `pause` leaves behind.
pub record PausedBy (tr milliseconds : ℕ) (k : Kernel) (r : ℤ × Kernel) : Type 0 where
  pub result : r.0 ≡ pos 0
  pub queue :
      paused (r.1.sched k.cpuid)
      ≡ insert_at
          (place_for (entry_of tr milliseconds k).request (k.sched k.cpuid))
          (entry_of tr milliseconds k)
          (paused (k.sched k.cpuid))
  pub ordered : AreFrom 0 (paused (r.1.sched k.cpuid))
  pub asked :
      ((r.1.sched k.cpuid).requesting_thread ≡ some tr)
      × ((r.1.sched k.cpuid).requesting_state ≡ some dormant)
  pub duration : (r.1.thread tr).duration ≡ milliseconds
  pub unlocked : (r.1.sched k.cpuid).nested_lock ≡ 0

-- The state of the thread that runs is asked for.
requests :
    (tr : ℕ) (k : Kernel)
    → (k.thread tr).state ≡ running
    → (k.sched k.cpuid).current_thread ≡ some tr
    → set_thread_state tr dormant k
      ≡ some (
          on_cpu k k.cpuid (record (k.sched k.cpuid) {
            requesting_thread = some tr;
            requesting_state = some dormant;
          }))
unfolding set_thread_state
requests tr k runs current =
    let same : (tr == tr) ≡ true = ground arith in
    rw (runs, set_thread_state) (rw (current, set_thread_state) (rw (same, set_thread_state) refl))

insert_pause_frame :
    (e : Paused) (si : SchedulerInfo)
    → ((insert_pause e si).current_thread ≡ si.current_thread)
      × ((insert_pause e si).nested_lock ≡ si.nested_lock)
unfolding insert_pause
insert_pause_frame e si = (refl, refl)

-- Under the lock.
module _ (tr milliseconds : ℕ) (k : Kernel) (exists : k.cpuid < k.cpu_count)
    (taken : (k.sched k.cpuid).nested_lock ≡ 1)
    (current : (k.sched k.cpuid).current_thread ≡ some tr) (runs : (k.thread tr).state ≡ running)
    (room : (k.sched k.cpuid).pause_count < (k.sched k.cpuid).pause_size)
    (sized : (k.sched k.cpuid).pause_size ≤ length (k.sched k.cpuid).pause_queue)
    (ordered : AreFrom 0 (paused (k.sched k.cpuid))) where
  abbrev id : ℕ
  id = k.cpuid

  abbrev inserted : SchedulerInfo
  inserted = insert_pause (entry_of tr milliseconds k) (k.sched id)

  abbrev asking : SchedulerInfo
  asking = record inserted { requesting_thread = some tr; requesting_state = some dormant }

  abbrev k1 : Kernel
  k1 = on_cpu k id inserted

  here1 : update k.sched id inserted id ≡ inserted
  here1 = update_self k.sched id inserted

  asked :
      set_thread_state tr dormant k1
      ≡ some (
          on_cpu k1 id
            (record (k1.sched id) { requesting_thread = some tr; requesting_state = some dormant }))
  asked = requests tr k1 runs (
      ap (λ s. s.current_thread) here1
      ∙ (insert_pause_frame (entry_of tr milliseconds k) (k.sched id)).0
      ∙ current)

  abbrev k2 : Kernel
  k2 =
      on_cpu k1 id
        (record (k1.sched id) { requesting_thread = some tr; requesting_state = some dormant })

  abbrev k3 : Kernel
  k3 = on_thread k2 tr (record (k2.thread tr) { duration = milliseconds })

  here3 : k3.sched id ≡ asking
  here3 =
      update_self k1.sched id
        (record (k1.sched id) { requesting_thread = some tr; requesting_state = some dormant })
      ∙ ap
          (λ (s : SchedulerInfo). record s {
            requesting_thread = some tr;
            requesting_state = some dormant;
          })
          here1

  freed : sched_unlock id k3 ≡ some (on_cpu k3 id (record (k3.sched id) { nested_lock = 0 }))
  freed = unlocks id k3 exists (
      ap (λ s. s.nested_lock) here3
      ∙ (insert_pause_frame (entry_of tr milliseconds k) (k.sched id)).1
      ∙ taken)

  locked_part :
      pause_locked id tr milliseconds k
      ≡ some (pos 0, on_cpu k3 id (record (k3.sched id) { nested_lock = 0 }))
  unfolding pause_locked
  locked_part =
      let free : ((k.sched id).pause_count == (k.sched id).pause_size) ≡ false = ground arith in
      rw (free, pause_locked) (rw (asked, pause_locked) (rw (freed, pause_locked) refl))

  here4 :
      update k3.sched id (record (k3.sched id) { nested_lock = 0 }) id
      ≡ record asking { nested_lock = 0 }
  here4 = update_self k3.sched id _ ∙ ap (λ (s : SchedulerInfo). record s { nested_lock = 0 }) here3

  pause_locked_lem : Returns (pause_locked id tr milliseconds k) (PausedBy tr milliseconds k)
  pause_locked_lem =
      let (queue, order) =
        insert_pause_lem (entry_of tr milliseconds k) (k.sched id) (omega arith) ordered in
      rw locked_part (record {
        result = refl;
        queue = ap paused here4 ∙ queue;
        ordered = rw here4 order;
        asked = (ap (λ s. s.requesting_thread) here4, ap (λ s. s.requesting_state) here4);
        duration =
            ap (λ t. t.duration)
              (update_self k2.thread tr (record (k2.thread tr) { duration = milliseconds }));
        unlocked = ap (λ s. s.nested_lock) here4;
      })

-- `pause` of the thread that the processor runs, where the pause queue has room and is in the order
-- of its times: the thread's entry joins the queue in front of those that wait for a later time, the
-- order is kept, the thread is to become dormant when it is switched out, and the lock is free again.
pub pause_lem :
    (tr milliseconds : ℕ) (k : Kernel)
    → 0 < milliseconds
    → CanPause tr k
    → AreFrom 0 (paused (k.sched k.cpuid))
    → Returns (pause tr milliseconds k) (PausedBy tr milliseconds k)
unfolding pause
pause_lem tr milliseconds k some_time can ordered =
    let starts : ltb 0 milliseconds ≡ true = ground arith in
    let at_home : ((k.thread tr).cpu ==ℤ pos k.cpuid) ≡ true = ground (arith, can.here) in
    rw (starts, pause)
      (rw (at_home, pause)
        (rw (locks k.cpuid k can.exists can.free, pause)
          (Returns-map (pause_locked k.cpuid tr milliseconds held) (PausedBy tr milliseconds held)
            (PausedBy tr milliseconds k) same
            (pause_locked_lem tr milliseconds held can.exists (ap (λ s. s.nested_lock) here0)
              (ap (λ s. s.current_thread) here0 ∙ can.current) can.runs (rw here0 can.room)
              (rw here0 can.sized) (rw here0 ordered)))))
  where
    locked_si : SchedulerInfo
    locked_si = record (k.sched k.cpuid) { idle = 0; nested_lock = 1 }

    held : Kernel
    held = on_cpu k k.cpuid locked_si

    here0 : update k.sched k.cpuid locked_si k.cpuid ≡ locked_si
    here0 = update_self k.sched k.cpuid locked_si

    same : (r : ℤ × Kernel) → PausedBy tr milliseconds held r → PausedBy tr milliseconds k r
    same r h = record {
      result = h.result;
      queue =
          h.queue
          ∙ ap
              (λ s.
                insert_at (place_for (entry_of tr milliseconds k).request s)
                  (entry_of tr milliseconds k) (paused s))
              here0;
      ordered = h.ordered;
      asked = h.asked;
      duration = h.duration;
      unlocked = h.unlocked;
    }
