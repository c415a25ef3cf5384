-- ===== src/Process/Table.antt =====
-- question/kernel/processes.c: the process table, contexts and the current process.
pub mod Laws
pub mod Invariant
use assembly_os.Prelude.{
  ℕ, zero, suc, ◌+◌, ◌*◌, Bool, not, Option, none, some, List, ◌==◌, if◌then◌else◌, minus_one,
  add32, replicate,
}
use assembly_os.Process.State.{
  Ctx, Priority, Shared, Waiting, FdProcTable, Pcb, Kernel, max_processes, program_stack_size,
  max_waiting, max_waiters, max_open_files, background, process, modify, running,
}

-- The loop fills `sps` from index 0 to 29.
init_sps : ℕ → Kernel → ℕ → ℕ
init_sps zero k i = k.sps i
init_sps (suc n) k i = if i == n then add32 k.tos_p1 (program_stack_size * n) else init_sps n k i

unfoldable pub init_stack_pointers : Kernel → Kernel
unfolding init_sps
init_stack_pointers k = record k { sps = init_sps max_processes k }

unfoldable pub parent_process : Kernel → ℕ → Option ℕ
parent_process k pid = if (process k pid).ppid == 0 then none else some (process k pid).ppid

unfoldable pub reset_priority : Kernel → Priority
reset_priority k = record {
  priority = 0;
  io_burst = 0;
  cpu_burst = 0;
  arrival_time = k.bursts;
  time_left = 0;
  waiting_time = 0;
  process_type = background;
}

-- Every field of the context is written, so the old one is not an argument. `pid - 1` wraps.
unfoldable pub reset_ctx : Kernel → ℕ → Ctx
reset_ctx k pid = record {
  pc = 0;
  cpsr = 80;
  gpr = λ _. 0;
  sp = k.sps (add32 pid minus_one);
  lr = 0;
}

-- `memset(p, 0, sizeof(pcb_t))`, then the fields that `new_process` sets.
unfoldable pub new_pcb : Kernel → ℕ → ℕ → Pcb
new_pcb k pid ppid = record {
  pid = pid;
  ppid = ppid;
  ctx = reset_ctx k pid;
  priority = reset_priority k;
  shared = record { ptr = 0; locked = 0 };
  waiting = replicate max_waiting (record { pid = 0; result = 0 });
  waiters = replicate max_waiters 0;
  fd_table = record { count = 0; opened = replicate max_open_files 0 };
}

unfoldable pub new_process : Kernel → ℕ → ℕ → Kernel
unfolding new_pcb
new_process k pid ppid = modify k pid (λ _. new_pcb k pid ppid)

unfoldable pub active_process : Kernel → ℕ → Bool
active_process k pid = not ((process k pid).ctx.pc == 0)

-- `for (pid = next; pid < next + n; pid++) new_process(pid, 0);`
init_pcbs_from : ℕ → ℕ → Kernel → Kernel
init_pcbs_from zero next k = k
init_pcbs_from (suc n) next k = init_pcbs_from n (next + 1) (new_process k next 0)

unfoldable pub init_pcbs : Kernel → Kernel
unfolding init_pcbs_from init_stack_pointers
init_pcbs k = init_pcbs_from max_processes 1 (init_stack_pointers k)

free_pid_from : ℕ → ℕ → Kernel → ℕ
free_pid_from zero next k = minus_one
free_pid_from (suc n) next k =
    let rest = free_pid_from n (next + 1) k in if active_process k next then rest else next

unfoldable pub free_pid : Kernel → ℕ
unfolding free_pid_from
free_pid k = free_pid_from max_processes 1 k

unfoldable pub load_ctx : Kernel → Kernel
load_ctx k = record k { frame = (running k).ctx }

unfoldable pub save_ctx : Kernel → Kernel
save_ctx k = modify k k.current (λ p. record p { ctx = k.frame })

unfoldable pub set_current : Kernel → ℕ → Kernel
unfolding load_ctx save_ctx
set_current k pid =
    if (running k).pid == pid then k else load_ctx (record (save_ctx k) { current = pid })
