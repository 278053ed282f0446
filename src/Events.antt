-- ===== src/Events.antt =====
-- kernel/src/events.c: the handlers that a process has for the events of a process and its threads.
-- `checkout_process` and `commit_process` stand around the whole of it; the process that the first
-- found is an argument.
pub mod Hooks
mod Tests
use spoon_microkernel.Prelude.{
  ℕ, Bool, true, false, ◌&&◌, not, Option, none, some, ◌==◌, if◌then◌else◌, update, ◌>>=◌, ◌>>◌,
  assert,
}
use spoon_microkernel.Prelude.Int.{ℤ, pos, negsuc, minus_one, is_neg, ◌==ℤ◌, increment, decrement}
use spoon_microkernel.Kernel.{Kernel, Thread, Process}
use spoon_microkernel.Sched.{on_thread}
use spoon_microkernel.Threads.{get_thread}

-- `SMK_OK`, and the errors of smk/err.h
abbrev pub smk_ok : ℤ
smk_ok = pos 0

abbrev pub smk_pid_not_found : ℤ
smk_pid_not_found = negsuc 2

abbrev pub smk_tid_not_found : ℤ
smk_tid_not_found = negsuc 3

abbrev pub smk_resource_allocated : ℤ
smk_resource_allocated = negsuc 4

abbrev pub smk_not_owner : ℤ
smk_not_owner = negsuc 8

abbrev pub on_proc : Kernel → ℕ → Process → Kernel
on_proc k proc p = record k { proc = update k.proc proc p }

-- The number of hooks once the handler `old` is replaced; `none` where there is none to take away.
abbrev pub new_hooks : (old handler_tid hooks : ℤ) → Option ℤ
new_hooks old handler_tid hooks =
    if is_neg handler_tid
    then (if is_neg old then none else some (decrement hooks))
    else some (if is_neg old then increment hooks else hooks)

-- "Now clear the pid if there are no more hooks"
abbrev pub owner : (handler_pid : ℤ) → Process → Process
owner handler_pid p = record p {
  event_pid = if p.event_hooks ==ℤ pos 0 then minus_one else handler_pid;
}

-- A thread of the process.
unfoldable pub hook_thread :
    (handler_pid handler_tid : ℤ) (proc tr : ℕ) → Kernel → Option (ℤ × Kernel)
hook_thread handler_pid handler_tid proc tr k =
    elim (new_hooks (k.thread tr).event_tid handler_tid (k.proc proc).event_hooks) [
      | none ↦ some (smk_not_owner, k)
      | some hooks ↦ (do
        let p = owner handler_pid (record (k.proc proc) { event_hooks = hooks })
        let k1 = on_thread k tr (record (k.thread tr) { event_tid = handler_tid })
        assert (not (is_neg hooks))
        some (smk_ok, on_proc k1 proc p))
    ]

-- The process itself.
unfoldable pub hook_process :
    (handler_pid handler_tid : ℤ) (proc : ℕ) → Kernel → Option (ℤ × Kernel)
hook_process handler_pid handler_tid proc k =
    elim (new_hooks (k.proc proc).event_tid handler_tid (k.proc proc).event_hooks) [
      | none ↦ some (smk_not_owner, k)
      | some hooks ↦ (do
        let p =
            owner handler_pid
              (record (k.proc proc) { event_hooks = hooks; event_tid = handler_tid })
        assert (not (is_neg hooks))
        some (smk_ok, on_proc k proc p))
    ]

-- Whether the handlers of the process belong to another process.
abbrev pub is_taken : (handler_pid : ℤ) → Process → Bool
is_taken handler_pid p = not (is_neg p.event_pid) && not (p.event_pid ==ℤ handler_pid)

-- `set_event_handler` with the process locked.
unfoldable pub set_handler :
    (handler_pid handler_tid target_tid : ℤ) (proc : ℕ) → Kernel → Option (ℤ × Kernel)
unfolding hook_thread hook_process
set_handler handler_pid handler_tid target_tid proc k =
    if is_taken handler_pid (k.proc proc)
    then some (smk_resource_allocated, k)
    else if is_neg target_tid
    then hook_process handler_pid handler_tid proc k
    else (do
      found ← get_thread proc target_tid k
      elim found [
        | none ↦ some (smk_tid_not_found, k)
        | some tr ↦ hook_thread handler_pid handler_tid proc tr k
      ])

-- `set_event_handler`
unfoldable pub set_event_handler :
    (handler_pid handler_tid target_pid target_tid : ℤ) (found : Option ℕ)
    → Kernel
    → Option (ℤ × Kernel)
unfolding set_handler
set_event_handler handler_pid handler_tid target_pid target_tid found k = do
  assert (not (is_neg handler_pid))
  (if is_neg target_pid then some (smk_pid_not_found, k) else elim found [
    | none ↦ some (smk_pid_not_found, k)
    | some proc ↦ set_handler handler_pid handler_tid target_tid proc k
  ])
