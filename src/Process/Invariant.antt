-- ===== src/Process/Invariant.antt =====
-- What holds of the process table between two interrupts (question/kernel/processes.h).
use assembly_os.Prelude.{ℕ, ◌≤◌, ◌≡◌, arith, length}
use assembly_os.Process.State.{Pcb, Kernel, modify, running}

-- The slot of `pid` names it, its arrays have their sizes, and its numbers are small.
pub record PcbIsValid (pid : ℕ) (p : Pcb) : Type 0 where
  pub named : p.pid ≡ pid
  pub waiting_size : length p.waiting ≡ 20
  pub waiters_size : length p.waiters ≡ 5
  pub typed : p.priority.process_type ≤ 1
  pub sliced : p.priority.time_left ≤ 6
  pub files_size : length p.fd_table.opened ≡ 10
  pub files_count : p.fd_table.count ≤ 10

pub record IsValid (k : Kernel) : Type 0 where
  pub slots : (pid : ℕ) → 1 ≤ pid → pid ≤ 30 → PcbIsValid pid (k.procs pid)
  pub current_low : 1 ≤ k.current
  pub current_high : k.current ≤ 30

-- An update that keeps a slot valid keeps the table valid, whichever slot it is applied to.
pub modify-IsValid :
    (k : Kernel) (q : ℕ) (f : Pcb → Pcb)
    → (1 ≤ q → q ≤ 30 → PcbIsValid q (k.procs q) → PcbIsValid q (f (k.procs q)))
    → IsValid k
    → IsValid (modify k q f)
modify-IsValid k q f keep v = record {
  slots = λ pid low high. ground (arith, v.slots pid low high, keep);
  current_low = v.current_low;
  current_high = v.current_high;
}

-- `current->pid` is the pid of the slot that `current` points to.
pub running-pid : (k : Kernel) → IsValid k → (running k).pid ≡ k.current
running-pid k v = (v.slots k.current v.current_low v.current_high).named
