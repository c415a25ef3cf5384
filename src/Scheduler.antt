-- ===== src/Scheduler.antt =====
-- question/kernel/scheduler.c.
pub mod Longest
pub mod Choice
pub mod Aging
pub mod Switch
pub mod Slices
pub mod Fresh
use assembly_os.Prelude.{
  ℕ, zero, suc, ◌+◌, ◌-◌, ◌%◌, Bool, ◌&&◌, ◌||◌, not, ◌==◌, if◌then◌else◌, ltb, slt, add32,
  minus_one,
}
use assembly_os.Process.State.{
  Priority, Pcb, Kernel, max_processes, background, interactive, process, modify, running,
}
use assembly_os.Process.Table.{active_process, set_current}

-- The loop runs from pid 0, so it also reads the memory before the array.
count_active : ℕ → ℕ → Kernel → ℕ
count_active zero pid k = 0
count_active (suc n) pid k =
    let rest = count_active n (pid + 1) k in if active_process k pid then rest + 1 else rest

unfoldable pub active_process_count : Kernel → ℕ
unfolding count_active
active_process_count k = count_active (max_processes + 1) 0 k

-- The pid of round `i`. `current->pid` lies between 1 and 30 (Invariant), so the sum is small.
abbrev pub candidate : Kernel → ℕ → ℕ
candidate k i = ((running k).pid + i) % max_processes + 1

-- Is `pid` active and of the type that is looked for?
unfoldable pub is_eligible : Kernel → ℕ → ℕ → Bool
is_eligible k process_type pid =
    active_process k pid && (process k pid).priority.process_type == process_type

-- Rounds `i` to `i + n - 1` of the loop, over `max_waiting_time` and `next_pid`.
scan : ℕ → ℕ → Kernel → ℕ → ℕ → ℕ → ℕ
scan zero i k process_type max_waiting_time next_pid = next_pid
scan (suc n) i k process_type max_waiting_time next_pid =
    let pid = candidate k i in
    let waiting_time = (process k pid).priority.waiting_time in
    let better = is_eligible k process_type pid && slt max_waiting_time waiting_time in
    scan n (i + 1) k process_type (if better then waiting_time else max_waiting_time)
      (if better then pid else next_pid)

unfoldable pub next_pid_with_type : Kernel → ℕ → ℕ
unfolding scan
next_pid_with_type k process_type = scan max_processes 0 k process_type minus_one minus_one

unfoldable pub toggled_type : ℕ → ℕ
toggled_type process_type = if process_type == background then interactive else background

unfoldable pub next_pid : Kernel → ℕ
unfolding toggled_type
next_pid k =
    let pid = next_pid_with_type k (toggled_type (running k).priority.process_type) in
    if pid == minus_one || (pid == (running k).pid && ltb 1 (active_process_count k))
    then next_pid_with_type k (running k).priority.process_type
    else pid

abbrev pub age : Pcb → Pcb
age p = record p {
  priority = record (p.priority) { waiting_time = add32 p.priority.waiting_time 1 };
}

-- The body of the loop of `update_waiting`.
age_round : ℕ → Kernel → Kernel
age_round i k =
    let pid = candidate k i in
    if not (active_process k pid) || pid == (running k).pid then k else modify k pid age

age_rounds : ℕ → ℕ → Kernel → Kernel
age_rounds zero i k = k
age_rounds (suc n) i k = age_rounds n (i + 1) (age_round i k)

unfoldable pub update_waiting : Kernel → Kernel
unfolding age_rounds age_round
update_waiting k = age_rounds max_processes 0 k

-- What `scheduler` does to the process that it has made current.
abbrev pub new_slice : Pcb → Pcb
new_slice p = record p {
  priority = record (p.priority) {
    waiting_time = 0;
    time_left = if p.priority.process_type == interactive then 1 else 6;
    cpu_burst = add32 p.priority.cpu_burst 1;
  };
}

unfoldable pub start_slice : Kernel → Kernel
start_slice k = modify k k.current new_slice

-- `current->priority.time_left--`, which runs only when the field is positive.
abbrev pub spend : Pcb → Pcb
spend p = record p { priority = record (p.priority) { time_left = p.priority.time_left - 1 } }

dispatch : Kernel → ℕ → Kernel
unfolding start_slice
dispatch k pid = if pid == minus_one then k else start_slice (set_current k pid)

-- `scheduler` after its call of `update_waiting`.
run_or_switch : Kernel → Kernel
unfolding dispatch
run_or_switch k =
    if slt 0 (running k).priority.time_left
    then modify k k.current spend
    else dispatch k (next_pid k)

unfoldable pub scheduler : Kernel → Kernel
unfolding run_or_switch
scheduler k = run_or_switch (update_waiting k)
