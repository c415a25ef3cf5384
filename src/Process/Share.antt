-- ===== src/Process/Share.antt =====
-- question/kernel/processes.c: shared pointers and their locks.
pub mod Laws
pub mod Invariant
use assembly_os.Prelude.{ℕ, Option, none, some, ◌==◌, if◌then◌else◌, minus_one}
use assembly_os.Process.State.{Shared, Pcb, Kernel, process, modify}

-- The pid whose `shared` object the returned pointer points to.
-- `process(p->ppid)` is never NULL: a process with no parent (ppid 0) reads the memory before
-- the array.
unfoldable pub is_shared : Kernel → ℕ → ℕ → Option ℕ
is_shared k pid ptr =
    if (process k pid).shared.ptr == ptr
    then some pid
    else (if (process k (process k pid).ppid).shared.ptr == ptr
        then some (process k pid).ppid
        else none)

abbrev pub set_ptr : ℕ → Pcb → Pcb
set_ptr ptr p = record p { shared = record { ptr = ptr; locked = p.shared.locked } }

abbrev pub set_locked : ℕ → Pcb → Pcb
set_locked v p = record p { shared = record { ptr = p.shared.ptr; locked = v } }

unfoldable pub share : Kernel → ℕ → ℕ → Kernel × ℕ
share k pid ptr =
    if (process k pid).shared.ptr == 0 then (modify k pid (set_ptr ptr), 1) else (k, 0)

unfoldable pub unshare : Kernel → ℕ → ℕ → Kernel × ℕ
unshare k pid ptr =
    if (process k pid).shared.ptr == ptr then (modify k pid (set_ptr 0), 1) else (k, 0)

lock_at : Kernel → Option ℕ → Kernel × ℕ
lock_at k none = (k, minus_one)
lock_at k (some owner) =
    if (process k owner).shared.locked == 0 then (modify k owner (set_locked 1), 1) else (k, 0)

unfoldable pub lock : Kernel → ℕ → ℕ → Kernel × ℕ
unfolding lock_at is_shared
lock k pid ptr = lock_at k (is_shared k pid ptr)

unlock_at : Kernel → Option ℕ → Kernel × ℕ
unlock_at k none = (k, minus_one)
unlock_at k (some owner) =
    if (process k owner).shared.locked == 0 then (k, 0) else (modify k owner (set_locked 0), 1)

unfoldable pub unlock : Kernel → ℕ → ℕ → Kernel × ℕ
unfolding unlock_at is_shared
unlock k pid ptr = unlock_at k (is_shared k pid ptr)
