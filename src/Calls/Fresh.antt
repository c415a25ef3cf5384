-- ===== src/Calls/Fresh.antt =====
-- The process that runs has not waited, whatever made it run (question/kernel/system_calls.c and
-- scheduler.c).
use assembly_os.Prelude.{ℕ, ◌≡◌, arith, Bool-cases, inl, inr, ◌==◌, minus_one}
use assembly_os.Process.State.{Kernel, modify, process}
use assembly_os.Process.Invariant.{IsValid, modify-IsValid}
use assembly_os.Process.Table.{
  free_pid, new_process, new_pcb, reset_priority, set_current, load_ctx, save_ctx,
}
use assembly_os.Scheduler.{scheduler}
use assembly_os.Scheduler.Fresh.{IsFresh, scheduler-IsFresh}
use assembly_os.Calls.{fork_into, sys_fork, sys_yield}

set_current-IsFresh :
    (k : Kernel) (pid : ℕ)
    → IsFresh k
    → (process k pid).priority.waiting_time ≡ 0
    → IsFresh (set_current k pid)
unfolding set_current load_ctx save_ctx
set_current-IsFresh k pid f g = ground (arith, f, g)

fork_into-IsFresh : (k : Kernel) (pid : ℕ) → IsFresh k → IsFresh (fork_into k pid)
unfolding fork_into new_process new_pcb reset_priority
fork_into-IsFresh k pid f = set_current-IsFresh _ pid (ground (arith, f)) (ground arith)

sys_fork-IsFresh : (k : Kernel) → IsFresh k → IsFresh (sys_fork k)
unfolding sys_fork
sys_fork-IsFresh k f = elim (Bool-cases (free_pid k == minus_one)) [
  | inl full ↦ rw full f
  | inr free ↦ rw free (fork_into-IsFresh k (free_pid k) f)
]

sys_yield-IsFresh : (k : Kernel) → IsValid k → IsFresh k → IsFresh (sys_yield k)
unfolding sys_yield
sys_yield-IsFresh k v f =
    scheduler-IsFresh
      (modify k k.current (λ p. record p { priority = record (p.priority) { time_left = 0 } }))
      (modify-IsValid k k.current
        (λ p. record p { priority = record (p.priority) { time_left = 0 } }) (λ _ _ w. ground arith)
        v)
      (ground (arith, f))

-- In a valid table in which the process that runs has a waiting time of 0, the process that runs
-- after a call of the scheduler has one of 0 as well, whether the slice lasts or a switch is made,
-- and so has the one that runs after a fork, the child where there is a free slot, and after a yield.
pub running-IsFresh :
    (k : Kernel)
    → IsValid k
    → IsFresh k
    → IsFresh (scheduler k) × IsFresh (sys_fork k) × IsFresh (sys_yield k)
running-IsFresh k v f = (scheduler-IsFresh k v f, sys_fork-IsFresh k f, sys_yield-IsFresh k v f)
