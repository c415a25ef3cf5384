-- ===== src/Process/State.antt =====
-- question/kernel/processes.h: a process control block and the state of the kernel.
-- `int`, `pid_t`, `uint32_t` and pointers are 32-bit words (Prelude/Words); NULL is 0.
use assembly_os.Prelude.{ℕ, List, ◌==◌, if◌then◌else◌}

abbrev pub max_processes : ℕ
max_processes = 30

abbrev pub program_stack_size : ℕ
program_stack_size = 4096

abbrev pub max_waiting : ℕ
max_waiting = 20

abbrev pub max_waiters : ℕ
max_waiters = 5

-- MAX_OPEN_FILES of fs.h.
abbrev pub max_open_files : ℕ
max_open_files = 10

abbrev pub background : ℕ
background = 0

abbrev pub interactive : ℕ
interactive = 1

-- `gpr` is an array of 13 words, read and written at the indices 0, 1 and 2.
pub record Ctx : Type 0 where
  pub cpsr : ℕ
  pub pc : ℕ
  pub gpr : ℕ → ℕ
  pub sp : ℕ
  pub lr : ℕ

pub record Priority : Type 0 where
  pub priority : ℕ
  pub io_burst : ℕ
  pub cpu_burst : ℕ
  pub arrival_time : ℕ
  pub time_left : ℕ
  pub waiting_time : ℕ
  pub process_type : ℕ

pub record Shared : Type 0 where
  pub ptr : ℕ
  pub locked : ℕ

pub record Waiting : Type 0 where
  pub pid : ℕ
  pub result : ℕ

pub record FdProcTable : Type 0 where
  pub count : ℕ
  pub opened : List ℕ

-- A `waiter_t` holds one pid, and is that pid.
pub record Pcb : Type 0 where
  pub pid : ℕ
  pub ppid : ℕ
  pub ctx : Ctx
  pub priority : Priority
  pub shared : Shared
  pub waiting : List Waiting
  pub waiters : List ℕ
  pub fd_table : FdProcTable

-- `procs pid` is `pcb[pid - 1]`. Pids from 1 to 30 lie in the array; any other names the memory
-- beside it, which some calls read, so its content is part of the state. That memory is kept apart
-- from the other fields: a theorem on runs has to exclude the calls that write there.
-- `current` is the pid whose slot the pointer `current` holds, `frame` the context that the
-- interrupt handler was given, `bursts` the counter BURSTS and `tos_p1` the linker's symbol.
pub record Kernel : Type 0 where
  pub procs : ℕ → Pcb
  pub current : ℕ
  pub frame : Ctx
  pub sps : ℕ → ℕ
  pub bursts : ℕ
  pub tos_p1 : ℕ

-- The pointer arithmetic of `process` never gives NULL, so its result is the slot itself.
abbrev pub process : Kernel → ℕ → Pcb
process k pid = k.procs pid

-- A write through the pointer that `process(pid)` returns.
abbrev pub modify : Kernel → ℕ → (Pcb → Pcb) → Kernel
modify k pid f = record k { procs = λ q. if q == pid then f (k.procs pid) else k.procs q }

-- `current->...`
abbrev pub running : Kernel → Pcb
running k = k.procs k.current
