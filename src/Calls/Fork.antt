-- ===== src/Calls/Fork.antt =====
-- `sys_fork` of question/kernel/system_calls.c.
use assembly_os.Prelude.{
  ℕ, ◌≤◌, ◌<◌, ◌≡◌, ◌≢◌, ◌⊎◌, inl, inr, refl, arith, true, false, minus_one, ◌==◌, sym, ◌∙◌, ap,
}
use mathlib.Core.Bool.{false≢true}
use assembly_os.Process.State.{Kernel, process, running}
use assembly_os.Process.Invariant.{IsValid, running-pid}
use assembly_os.Process.Table.{
  free_pid, new_process, new_pcb, set_current, load_ctx, save_ctx, active_process,
}
use assembly_os.Process.Table.Laws.{free_pid_lem}
use assembly_os.Calls.{set_gpr, return_value, fork_into, sys_fork}

-- `pid` has become a child of the process that ran, and runs instead of it.
pub record IsForked (k k' : Kernel) (pid : ℕ) : Type 0 where
  pub child_runs : k'.current ≡ pid
  pub child_frame : k'.frame ≡ set_gpr k.frame 0 0
  pub parent_saved : (process k' k.current).ctx ≡ set_gpr k.frame 0 pid
  pub child_named : (process k' pid).pid ≡ pid
  pub child_parent : (process k' pid).ppid ≡ k.current
  pub child_unshared : (process k' pid).shared.ptr ≡ 0
  pub child_files : (process k' pid).fd_table.count ≡ 0
  pub others : (q : ℕ) → q ≢ pid → q ≢ k.current → process k' q ≡ process k q

fork_into-IsForked :
    (k : Kernel) (pid : ℕ)
    → (running k).pid ≡ k.current
    → pid ≢ k.current
    → IsForked k (fork_into k pid) pid
unfolding fork_into new_process new_pcb set_current load_ctx save_ctx
fork_into-IsForked k pid named ne = record {
  child_runs = ground arith;
  child_frame = ground arith;
  parent_saved = ground arith;
  child_named = ground arith;
  child_parent = ground arith;
  child_unshared = ground arith;
  child_files = ground arith;
  others = λ q a b. ground arith;
}

-- With a valid table and an active caller: if a slot is free, `sys_fork` makes the lowest free one a copy of the caller and switches to it:
-- the child goes on with the caller's context and 0 in its first register, the caller's saved
-- context has the child's pid there, the child is the caller's, shares nothing and has no files,
-- and the other slots are as before. If none is free, the call returns -1 to the caller and
-- changes nothing else of the table and the context.
pub sys_fork_lem :
    (k : Kernel)
    → IsValid k
    → active_process k k.current ≡ true
    → ((sys_fork k ≡ return_value k minus_one)
        × ((q : ℕ) → 1 ≤ q → q ≤ 30 → active_process k q ≡ true))
      ⊎ ((1 ≤ free_pid k)
          × (free_pid k ≤ 30)
          × (active_process k (free_pid k) ≡ false)
          × ((q : ℕ) → 1 ≤ q → q < free_pid k → active_process k q ≡ true)
          × IsForked k (sys_fork k) (free_pid k))
unfolding sys_fork
sys_fork_lem k v live = elim (free_pid_lem k) [
  | inl (e, full) ↦ inl (rw e refl, full)
  | inr (low, high, idle, least) ↦ inr (
    low,
    high,
    idle,
    least,
    rw (found (free_pid k) high) (
        fork_into-IsForked k (free_pid k) (running-pid k v)
          (λ e. false≢true (sym idle ∙ ap (active_process k) e ∙ live))),
  )
]
  where
    found : (p : ℕ) → p ≤ 30 → (p == minus_one) ≡ false
    found p h = ground arith
