-- ===== src/Scheduler/Switch.antt =====
-- `scheduler` as a whole: time slices, switches, and what it leaves alone.
use assembly_os.Prelude.{
  ℕ, zero, suc, ◌+◌, ◌≤◌, ◌≡◌, false, ◌==◌, arith, Bool-cases, inl, inr, slt, minus_one,
}
use assembly_os.Process.State.{Pcb, Kernel, process, modify, running}
use assembly_os.Process.Invariant.{IsValid, modify-IsValid}
use assembly_os.Process.Table.{set_current, load_ctx, save_ctx}
use assembly_os.Process.Table.Invariant.{set_current-IsValid}
use assembly_os.Scheduler.{
  age, age_round, age_rounds, update_waiting, candidate, scheduler, dispatch, run_or_switch,
  start_slice, next_pid, spend, new_slice,
}
use assembly_os.Scheduler.Choice.{next_pid-range}

-- The fields of a process that scheduling does not concern.
pub record IsSameProcess (p q : Pcb) : Type 0 where
  pub same_pid : p.pid ≡ q.pid
  pub same_ppid : p.ppid ≡ q.ppid
  pub same_shared : p.shared ≡ q.shared
  pub same_waiting : p.waiting ≡ q.waiting
  pub same_waiters : p.waiters ≡ q.waiters
  pub same_files : p.fd_table ≡ q.fd_table
  pub same_type : p.priority.process_type ≡ q.priority.process_type

abbrev pub IsSameTable : Kernel → Kernel → Type 0
IsSameTable k k' = (q : ℕ) → IsSameProcess (process k' q) (process k q)

IsSameTable-trans : (k k1 k2 : Kernel) → IsSameTable k k1 → IsSameTable k1 k2 → IsSameTable k k2
IsSameTable-trans k k1 k2 s t q = ground (arith, s q, t q)

age_round-IsSameTable : (i : ℕ) (k : Kernel) → IsSameTable k (age_round i k)
unfolding age_round
age_round-IsSameTable i k q = ground arith

age_rounds-IsSameTable : (n i : ℕ) (k : Kernel) → IsSameTable k (age_rounds n i k)
unfolding age_rounds
age_rounds-IsSameTable zero i k = λ q. ground arith
age_rounds-IsSameTable (suc n) i k =
    IsSameTable-trans k (age_round i k) (age_rounds n (i + 1) (age_round i k))
      (age_round-IsSameTable i k) (age_rounds-IsSameTable n (i + 1) (age_round i k))

pub update_waiting-IsSameTable : (k : Kernel) → IsSameTable k (update_waiting k)
unfolding update_waiting
update_waiting-IsSameTable = age_rounds-IsSameTable 30 0

dispatch-IsSameTable : (k : Kernel) (pid : ℕ) → IsSameTable k (dispatch k pid)
unfolding dispatch start_slice set_current load_ctx save_ctx
dispatch-IsSameTable k pid q = ground arith

run_or_switch-IsSameTable : (k : Kernel) → IsSameTable k (run_or_switch k)
unfolding run_or_switch
run_or_switch-IsSameTable k = elim (Bool-cases (slt 0 (running k).priority.time_left)) [
  | inl more ↦ rw more (λ q. ground arith)
  | inr spent ↦ rw spent (dispatch-IsSameTable k (next_pid k))
]

-- Whatever it decides, the scheduler changes only the priorities and the saved contexts: no
-- process gets another parent, shared object, waiting table, file table or type.
pub scheduler-IsSameTable :
    (k : Kernel) (q : ℕ) → IsSameProcess (process (scheduler k) q) (process k q)
unfolding scheduler
scheduler-IsSameTable k =
    IsSameTable-trans k (update_waiting k) (run_or_switch (update_waiting k))
      (update_waiting-IsSameTable k) (run_or_switch-IsSameTable (update_waiting k))

age_round-IsValid : (i : ℕ) (k : Kernel) → IsValid k → IsValid (age_round i k)
unfolding age_round
age_round-IsValid i k v =
    ground (arith, v, modify-IsValid k (candidate k i) age (λ _ _ w. ground arith) v)

age_rounds-IsValid : (n i : ℕ) (k : Kernel) → IsValid k → IsValid (age_rounds n i k)
unfolding age_rounds
age_rounds-IsValid zero i k v = v
age_rounds-IsValid (suc n) i k v =
    age_rounds-IsValid n (i + 1) (age_round i k) (age_round-IsValid i k v)

pub update_waiting-IsValid : (k : Kernel) → IsValid k → IsValid (update_waiting k)
unfolding update_waiting
update_waiting-IsValid k v = age_rounds-IsValid 30 0 k v

start_slice-IsValid : (k : Kernel) → IsValid k → IsValid (start_slice k)
unfolding start_slice
start_slice-IsValid k v = modify-IsValid k k.current new_slice (λ _ _ w. ground arith) v

spend-IsValid : (k : Kernel) → IsValid k → IsValid (modify k k.current spend)
spend-IsValid k v = modify-IsValid k k.current spend (λ _ _ w. ground arith) v

run_or_switch-IsValid : (k : Kernel) → IsValid k → IsValid (run_or_switch k)
unfolding run_or_switch dispatch
run_or_switch-IsValid k v = elim (Bool-cases (slt 0 (running k).priority.time_left)) [
  | inl more ↦ rw more (spend-IsValid k v)
  | inr spent ↦ rw spent (elim (next_pid-range k) [
    | inl e ↦ rw e v
    | inr (low, high) ↦
        rw (found (next_pid k) high)
          (start_slice-IsValid _ (set_current-IsValid k (next_pid k) low high v))
  ])
]
  where
    found : (p : ℕ) → p ≤ 30 → (p == minus_one) ≡ false
    found p h = ground arith

pub scheduler-IsValid : (k : Kernel) → IsValid k → IsValid (scheduler k)
unfolding scheduler
scheduler-IsValid k v = run_or_switch-IsValid (update_waiting k) (update_waiting-IsValid k v)
