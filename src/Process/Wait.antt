-- ===== src/Process/Wait.antt =====
-- question/kernel/processes.c: who waits for whom, and the results that are handed over.
pub mod Writes
pub mod Laws
pub mod Registration
pub mod Invariant
use assembly_os.Prelude.{
  ℕ, zero, suc, ◌+◌, Bool, Option, none, some, List, ◌==◌, if◌then◌else◌, ◌>>=◌, minus_one, get_or,
  set, index_where,
}
use assembly_os.Process.State.{Waiting, Pcb, Kernel, max_waiting, max_waiters, process, modify}
use assembly_os.Process.Table.{active_process}

-- An empty entry stands for what lies past the end of an array; no loop reads it.
abbrev pub no_waiting : Waiting
no_waiting = record { pid = 0; result = 0 }

-- The index of the entry that the returned pointer points to, `none` for NULL.
unfoldable pub get_waiting : Kernel → ℕ → ℕ → Option ℕ
get_waiting k pid waiting_pid =
    index_where (λ e. e.pid == waiting_pid) max_waiting (process k pid).waiting

abbrev pub entry : Kernel → ℕ → ℕ → Waiting
entry k pid i = get_or (process k pid).waiting i no_waiting

abbrev pub set_entry : Kernel → ℕ → ℕ → Waiting → Kernel
set_entry k pid i e = modify k pid (λ p. record p { waiting = set p.waiting i e })

abbrev pub waiter : Kernel → ℕ → ℕ → ℕ
waiter k pid i = get_or (process k pid).waiters i 0

abbrev pub set_waiter : Kernel → ℕ → ℕ → ℕ → Kernel
set_waiter k pid i w = modify k pid (λ p. record p { waiters = set p.waiters i w })

-- `get_waiting(w, pid)->result = result;`, where the pointer is NULL if `w` has no entry for
-- `pid`: a write through NULL is `none`.
give_result : Kernel → ℕ → ℕ → ℕ → Option Kernel
give_result k w pid result = do
  i ← get_waiting k w pid
  some (set_entry k w i (record { pid = (entry k w i).pid; result = result }))

-- The body of the loop of `update_waiters`.
update_waiter : Kernel → ℕ → ℕ → ℕ → Option Kernel
unfolding give_result
update_waiter k pid result i =
    if waiter k pid i == 0
    then some k
    else (do k' ← give_result k (waiter k pid i) pid result; some (set_waiter k' pid i 0))

update_waiters_from : ℕ → ℕ → Kernel → ℕ → ℕ → Option Kernel
update_waiters_from zero i k pid result = some k
update_waiters_from (suc n) i k pid result = elim (update_waiter k pid result i) [
  | none ↦ none
  | some k' ↦ update_waiters_from n (i + 1) k' pid result
]

-- `none` is a write through a NULL pointer.
unfoldable pub update_waiters : Kernel → ℕ → ℕ → Option Kernel
unfolding update_waiters_from update_waiter
update_waiters k pid result = update_waiters_from max_waiters 0 k pid result

-- The two loops of `set_waiting`, each over its table.
unfoldable pub free_waiter : Kernel → ℕ → Option ℕ
free_waiter k pid = index_where (λ w. w == 0) max_waiters (process k pid).waiters

unfoldable pub free_waiting : Kernel → ℕ → Option ℕ
free_waiting k pid = index_where (λ e. e.pid == 0) max_waiting (process k pid).waiting

fill_waiting : Kernel → ℕ → ℕ → Option ℕ → Kernel × Option ℕ
fill_waiting k pid waiting_pid none = (k, none)
fill_waiting k pid waiting_pid (some i) =
    (set_entry k pid i (record { pid = waiting_pid; result = minus_one }), some i)

fill_waiter : Kernel → ℕ → ℕ → Option ℕ → Kernel × Option ℕ
unfolding fill_waiting free_waiting
fill_waiter k pid waiting_pid none = (k, none)
fill_waiter k pid waiting_pid (some i) =
    let k' = set_waiter k waiting_pid i pid in fill_waiting k' pid waiting_pid (free_waiting k' pid)

-- The new state, and the index of the entry that the returned pointer points to.
unfoldable pub set_waiting : Kernel → ℕ → ℕ → Kernel × Option ℕ
unfolding fill_waiter free_waiter
set_waiting k pid waiting_pid =
    if active_process k waiting_pid
    then fill_waiter k pid waiting_pid (free_waiter k waiting_pid)
    else (k, none)
