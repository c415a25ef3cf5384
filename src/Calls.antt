-- ===== src/Calls.antt =====
-- question/kernel/system_calls.c. `error` only prints on the UART and is left out.
-- `none` is a write through a NULL pointer (Process/Wait).
pub mod Invariant
pub mod Fork
pub mod Fresh
pub mod Exit
pub mod Kill
pub mod Waitpid
use assembly_os.Prelude.{
  ℕ, zero, suc, ◌+◌, Option, none, some, ◌&&◌, ◌==◌, if◌then◌else◌, ◌>>=◌, minus_one, minus_two,
}
use assembly_os.Process.State.{
  Ctx, Priority, Pcb, Waiting, Kernel, max_processes, interactive, process, modify, running,
}
use assembly_os.Process.Table.{
  free_pid, new_process, set_current, reset_ctx, load_ctx, active_process,
}
use assembly_os.Process.Wait.{get_waiting, set_waiting, update_waiters, entry, set_entry}
use assembly_os.Process.Share.{share, unshare, lock, unlock}
use assembly_os.Scheduler.{scheduler}

abbrev pub sig_term : ℕ
sig_term = 0

abbrev pub sig_quit : ℕ
sig_quit = 1

abbrev pub exit_failure : ℕ
exit_failure = 1

-- `ctx->gpr[i] = v`
abbrev pub set_gpr : Ctx → ℕ → ℕ → Ctx
set_gpr c i v = record c { gpr = λ j. if j == i then v else c.gpr j }

-- `ctx->gpr[0] = v` in the interrupted context.
abbrev pub return_value : Kernel → ℕ → Kernel
return_value k v = record k { frame = set_gpr k.frame 0 v }

abbrev pub set_ctx : Ctx → Pcb → Pcb
set_ctx c p = record p { ctx = c }

pub fork_into : Kernel → ℕ → Kernel
fork_into k pid =
    let child = modify (new_process k pid (running k).pid) pid (set_ctx (set_gpr k.frame 0 0)) in
    set_current (return_value child pid) pid

unfoldable pub sys_fork : Kernel → Kernel
unfolding fork_into
sys_fork k =
    let pid = free_pid k in if pid == minus_one then return_value k minus_one else fork_into k pid

abbrev pub orphan : Pcb → Pcb
orphan p = record p { ppid = 0 }

orphan_round : ℕ → ℕ → Kernel → Kernel
orphan_round ppid pid k = if (process k pid).ppid == ppid then modify k pid orphan else k

orphan_rounds : ℕ → ℕ → ℕ → Kernel → Kernel
orphan_rounds zero pid ppid k = k
orphan_rounds (suc n) pid ppid k = orphan_rounds n (pid + 1) ppid (orphan_round ppid pid k)

unfoldable pub fix_orphaned_processes : Kernel → ℕ → Kernel
unfolding orphan_rounds orphan_round
fix_orphaned_processes k ppid = orphan_rounds max_processes 1 ppid k

-- What is left of `sys_exit` once the waiters have their result.
pub leave : Kernel → Kernel
leave k =
    let orphaned = fix_orphaned_processes k (running k).pid in
    let renewed = new_process orphaned (running orphaned).pid 0 in
    scheduler (record renewed { frame = reset_ctx renewed (running renewed).pid })

unfoldable pub sys_exit : Kernel → ℕ → Option Kernel
unfolding leave
sys_exit k x = do k' ← update_waiters k (running k).pid x; some (leave k')

-- The last step of SIG_TERM.
pub terminate : Kernel → ℕ → Kernel
terminate k pid =
    if (running k).pid == pid
    then scheduler (record k { frame = reset_ctx k pid })
    else modify k pid (set_ctx (reset_ctx k pid))

-- The case SIG_TERM.
pub kill_term : Kernel → ℕ → Option Kernel
unfolding terminate
kill_term k pid = do
  let orphaned = fix_orphaned_processes k (running k).pid
  k' ← update_waiters orphaned (running orphaned).pid exit_failure
  some (terminate k' pid)

-- SIG_QUIT and every other signal but SIG_TERM are refused.
unfoldable pub sys_kill : Kernel → ℕ → ℕ → Option (Kernel × ℕ)
sys_kill k pid sig =
    if active_process k pid && sig == sig_term
    then (do k' ← kill_term k pid; some (k', 0))
    else some (k, minus_one)

unfoldable pub sys_yield : Kernel → Kernel
sys_yield k =
    scheduler
      (modify k k.current (λ p. record p { priority = record (p.priority) { time_left = 0 } }))

-- `current` as `sys_exec` leaves it, for a program at `x`.
abbrev pub exec_pcb : Kernel → ℕ → ℕ → ℕ → Pcb → Pcb
exec_pcb k x interactively args p = record p {
  ctx = set_gpr (record (reset_ctx k p.pid) { pc = x }) 0 args;
  priority =
      if interactively == 0 then p.priority else record (p.priority) { process_type = interactive };
}

unfoldable pub sys_exec : Kernel → ℕ → ℕ → ℕ → Option Kernel
sys_exec k x interactively args =
    if x == 0
    then sys_exit k exit_failure
    else some (load_ctx (modify k k.current (exec_pcb k x interactively args)))

unfoldable pub sys_share : Kernel → ℕ → Kernel × ℕ
sys_share k ptr = share k (running k).pid ptr

unfoldable pub sys_unshare : Kernel → ℕ → Kernel × ℕ
sys_unshare k ptr = unshare k (running k).pid ptr

unfoldable pub sys_lock : Kernel → ℕ → Kernel × ℕ
sys_lock k ptr = lock k (running k).pid ptr

unfoldable pub sys_unlock : Kernel → ℕ → Kernel × ℕ
sys_unlock k ptr = unlock k (running k).pid ptr

-- The end of `sys_wait`, at the entry that was found or made.
collect : Kernel → ℕ → ℕ → Kernel × ℕ
collect k pid i =
    let result = (entry k pid i).result in
    if result == minus_one
    then (k, result)
    else (set_entry k pid i (record { pid = 0; result = minus_one }), result)

start_waiting : Kernel × Option ℕ → ℕ → Kernel × ℕ
unfolding collect
start_waiting (k, none) pid = (k, minus_two)
start_waiting (k, some i) pid = collect k pid i

wait_at : Kernel → ℕ → ℕ → Option ℕ → Kernel × ℕ
unfolding collect start_waiting
wait_at k pid wait_for_pid (some i) = collect k pid i
wait_at k pid wait_for_pid none = start_waiting (set_waiting k pid wait_for_pid) pid

unfoldable pub sys_wait : Kernel → ℕ → ℕ → Kernel × ℕ
unfolding wait_at
sys_wait k pid wait_for_pid = wait_at k pid wait_for_pid (get_waiting k pid wait_for_pid)

unfoldable pub sys_fork_wait : Kernel → Kernel
sys_fork_wait k =
    let previous = (running k).pid in
    let forked = sys_fork k in (sys_wait forked previous (running forked).pid).0
