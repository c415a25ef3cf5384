-- ===== src/Scheduler/Fresh.antt =====
-- The waiting time of the process that runs (question/kernel/scheduler.c).
use assembly_os.Prelude.{ℕ, ◌≡◌, ◌∙◌, ap, arith, Bool-cases, inl, inr, ◌==◌, slt, minus_one}
use assembly_os.Process.State.{Pcb, Kernel, running}
use assembly_os.Process.Invariant.{IsValid}
use assembly_os.Process.Table.{set_current, load_ctx, save_ctx}
use assembly_os.Scheduler.{
  update_waiting, run_or_switch, dispatch, start_slice, scheduler, next_pid,
}
use assembly_os.Scheduler.Slices.{running-update_waiting}

-- The process that runs has not waited.
abbrev pub IsFresh : Kernel → Type 0
IsFresh k = (running k).priority.waiting_time ≡ 0

dispatch-IsFresh : (k : Kernel) (pid : ℕ) → IsFresh k → IsFresh (dispatch k pid)
unfolding dispatch start_slice set_current load_ctx save_ctx
dispatch-IsFresh k pid f = elim (Bool-cases (pid == minus_one)) [
  | inl none_left ↦ rw none_left f
  | inr found ↦ rw found (ground arith)
]

run_or_switch-IsFresh : (k : Kernel) → IsFresh k → IsFresh (run_or_switch k)
unfolding run_or_switch
run_or_switch-IsFresh k f = elim (Bool-cases (slt 0 (running k).priority.time_left)) [
  | inl more ↦ rw more (ground (arith, f))
  | inr spent ↦ rw spent (dispatch-IsFresh k (next_pid k) f)
]

pub scheduler-IsFresh : (k : Kernel) → IsValid k → IsFresh k → IsFresh (scheduler k)
unfolding scheduler
scheduler-IsFresh k v f =
    run_or_switch-IsFresh (update_waiting k)
      (ap (λ (p : Pcb). p.priority.waiting_time) (running-update_waiting k v) ∙ f)
