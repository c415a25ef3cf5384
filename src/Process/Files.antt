-- ===== src/Process/Files.antt =====
-- question/kernel/processes.c: the table of open files that each process keeps.
pub mod Laws
use assembly_os.Prelude.{
  ℕ, ◌+◌, ◌-◌, Bool, Option, none, some, ◌==◌, if◌then◌else◌, leb, minus_one, set, memmove,
  index_where,
}
use assembly_os.Process.State.{FdProcTable, Pcb, Kernel, max_open_files, process, modify}

abbrev pub fds : Kernel → ℕ → FdProcTable
fds k pid = (process k pid).fd_table

abbrev pub set_fds : Kernel → ℕ → FdProcTable → Kernel
set_fds k pid t = modify k pid (λ p. record p { fd_table = t })

unfoldable pub add_process_fd : Kernel → ℕ → ℕ → Kernel × ℕ
add_process_fd k pid fd =
    let t = fds k pid in
    if leb max_open_files t.count
    then (k, minus_one)
    else (set_fds k pid (record { opened = set t.opened t.count fd; count = t.count + 1 }), 0)

-- The table after the deletion at `index`. The first argument of `memmove` is its destination.
unfoldable pub remove_at : FdProcTable → ℕ → FdProcTable
remove_at t index =
    let count = t.count - 1 in
    record { count = count; opened = memmove t.opened (index + 1) index (count - index) }

remove_found : Kernel → ℕ → Option ℕ → Kernel × ℕ
unfolding remove_at
remove_found k pid none = (k, minus_one)
remove_found k pid (some index) = (set_fds k pid (remove_at (fds k pid) index), 0)

unfoldable pub remove_process_fd : Kernel → ℕ → ℕ → Kernel × ℕ
unfolding remove_found
remove_process_fd k pid fd =
    remove_found k pid (index_where (λ x. x == fd) (fds k pid).count (fds k pid).opened)

found_fd : Option ℕ → ℕ
found_fd none = minus_one
found_fd (some i) = 1

unfoldable pub proc_fd_open : Kernel → ℕ → ℕ → ℕ
unfolding found_fd
proc_fd_open k pid fd = found_fd (index_where (λ x. x == fd) (fds k pid).count (fds k pid).opened)
