-- ===== src/Calls/Invariant.antt =====
-- Every system call of question/kernel/system_calls.c keeps the process table valid.
use assembly_os.Prelude.{
  ℕ, zero, suc, ◌+◌, ◌≤◌, ◌≡◌, ◌≢◌, refl, Option, none, some, arith, Bool-cases, inl, inr, ◌==◌,
  minus_one, true, false, >>=-eq-some, same_value, subst, sym, ap, ◌∙◌, ◌⊎◌, ◌&&◌,
}
use assembly_os.Process.State.{Pcb, Kernel, running}
use assembly_os.Process.Invariant.{IsValid, modify-IsValid}
use assembly_os.Process.Table.{free_pid, new_process, active_process}
use assembly_os.Process.Table.Invariant.{
  new_process-IsValid, frame-IsValid, ctx-IsValid, load_ctx-IsValid, set_current-IsValid,
}
use assembly_os.Process.Table.Laws.{free_pid_lem}
use assembly_os.Process.Wait.{get_waiting, set_waiting, update_waiters, entry}
use assembly_os.Process.Wait.Invariant.{
  set_entry-IsValid, set_waiting-IsValid, update_waiters-IsValid,
}
use assembly_os.Scheduler.Switch.{scheduler-IsValid}
use assembly_os.Calls.{
  set_gpr, fork_into, sys_fork, orphan, orphan_round, orphan_rounds, fix_orphaned_processes, leave,
  sys_exit, terminate, sys_kill, sys_yield, exec_pcb, sys_exec, collect, start_waiting, wait_at,
  sys_wait, sys_fork_wait, exit_failure, sig_term, kill_term,
}

pub fork_into-IsValid :
    (k : Kernel) (pid : ℕ) → 1 ≤ pid → pid ≤ 30 → IsValid k → IsValid (fork_into k pid)
unfolding fork_into
fork_into-IsValid k pid low high v = set_current-IsValid _ pid low high (
    frame-IsValid _ _ (
      ctx-IsValid (new_process k pid (running k).pid) pid (set_gpr k.frame 0 0)
        (new_process-IsValid k pid (running k).pid v)))

pub sys_fork-IsValid : (k : Kernel) → IsValid k → IsValid (sys_fork k)
unfolding sys_fork
sys_fork-IsValid k v = elim (free_pid_lem k) [
  | inl (e, full) ↦ rw e (frame-IsValid k _ v)
  | inr (low, high, idle, least) ↦
      rw (found (free_pid k) high) (fork_into-IsValid k (free_pid k) low high v)
]
  where
    found : (p : ℕ) → p ≤ 30 → (p == minus_one) ≡ false
    found p h = ground arith

orphan_rounds-IsValid :
    (n pid ppid : ℕ) (k : Kernel) → IsValid k → IsValid (orphan_rounds n pid ppid k)
unfolding orphan_rounds orphan_round
orphan_rounds-IsValid zero pid ppid k v = v
orphan_rounds-IsValid (suc n) pid ppid k v =
    orphan_rounds-IsValid n (pid + 1) ppid (orphan_round ppid pid k)
      (ground (arith, v, modify-IsValid k pid orphan (λ _ _ w. ground arith) v))

pub fix_orphaned_processes-IsValid :
    (k : Kernel) (ppid : ℕ) → IsValid k → IsValid (fix_orphaned_processes k ppid)
unfolding fix_orphaned_processes
fix_orphaned_processes-IsValid k ppid v = orphan_rounds-IsValid 30 1 ppid k v

pub leave-IsValid : (k : Kernel) → IsValid k → IsValid (leave k)
unfolding leave
leave-IsValid k v = scheduler-IsValid _ (
    frame-IsValid _ _
      (new_process-IsValid _ _ 0 (fix_orphaned_processes-IsValid k (running k).pid v)))

pub sys_exit-IsValid : (k k' : Kernel) (x : ℕ) → sys_exit k x ≡ some k' → IsValid k → IsValid k'
unfolding sys_exit
sys_exit-IsValid k k' x e v =
    let (k1, told, rest) = >>=-eq-some (update_waiters k (running k).pid x) _ e in
    subst IsValid (same_value refl rest) (leave-IsValid k1 (update_waiters-IsValid k k1 _ x told v))

terminate-IsValid : (k : Kernel) (pid : ℕ) → IsValid k → IsValid (terminate k pid)
unfolding terminate
terminate-IsValid k pid v = elim (Bool-cases ((running k).pid == pid)) [
  | inl own ↦ rw own (scheduler-IsValid _ (frame-IsValid k _ v))
  | inr other ↦ rw other (ctx-IsValid k pid _ v)
]

kill_term-IsValid : (k k' : Kernel) (pid : ℕ) → kill_term k pid ≡ some k' → IsValid k → IsValid k'
unfolding kill_term
kill_term-IsValid k k' pid e v =
    let orphaned = fix_orphaned_processes k (running k).pid in
    let (k1, told, rest) =
      >>=-eq-some (update_waiters orphaned (running orphaned).pid exit_failure) _ e in
    subst IsValid (same_value refl rest) (
      terminate-IsValid k1 pid (
        update_waiters-IsValid orphaned k1 _ exit_failure told
          (fix_orphaned_processes-IsValid k (running k).pid v)))

pair_eq : {k k' : Kernel} {r r' : ℕ} → ◌≡◌ {A = Kernel × ℕ} (k, r) (k', r') → (k ≡ k') × (r ≡ r')
pair_eq e = (ap (λ (p : Kernel × ℕ). p.0) e, ap (λ (p : Kernel × ℕ). p.1) e)

-- The two results of a kill.
sys_kill-cases :
    (k k' : Kernel) (pid sig r : ℕ)
    → sys_kill k pid sig ≡ some (k', r)
    → ((active_process k pid ≡ true) × (sig ≡ sig_term) × (r ≡ 0) × (kill_term k pid ≡ some k'))
      ⊎ (((active_process k pid ≡ false) ⊎ (sig ≢ sig_term)) × (r ≡ minus_one) × (k' ≡ k))
unfolding sys_kill
sys_kill-cases k k' pid sig r e = elim (Bool-cases (active_process k pid && sig == sig_term)) [
  | inr refused ↦
      let same : (k' ≡ k) × (r ≡ minus_one) = pair_eq (same_value e (rw refused refl)) in
      inr (ground arith, same.1, same.0)
  | inl go ↦
      let (k1, done, rest) = >>=-eq-some (kill_term k pid) (λ k''. some (k'', 0)) (rw go at e) in
      let same = pair_eq (same_value refl rest) in
      inl (ground arith, ground arith, sym same.1, done ∙ ap some same.0)
]

pub sys_kill-IsValid :
    (k k' : Kernel) (pid sig r : ℕ) → sys_kill k pid sig ≡ some (k', r) → IsValid k → IsValid k'
sys_kill-IsValid k k' pid sig r e v = elim (sys_kill-cases k k' pid sig r e) [
  | inl (live, term, zero_result, done) ↦ kill_term-IsValid k k' pid done v
  | inr (why, error_result, same) ↦ subst IsValid (sym same) v
]

yield_pcb : Pcb → Pcb
yield_pcb p = record p { priority = record (p.priority) { time_left = 0 } }

pub sys_yield-IsValid : (k : Kernel) → IsValid k → IsValid (sys_yield k)
unfolding sys_yield
sys_yield-IsValid k v = scheduler-IsValid _ (
    modify-IsValid k k.current (λ p. record p { priority = record (p.priority) { time_left = 0 } })
      (λ _ _ w. ground arith) v)

pub sys_exec-IsValid :
    (k k' : Kernel) (x interactively args : ℕ)
    → sys_exec k x interactively args ≡ some k'
    → IsValid k
    → IsValid k'
unfolding sys_exec
sys_exec-IsValid k k' x interactively args e v = elim (Bool-cases (x == 0)) [
  | inl null ↦ sys_exit-IsValid k k' exit_failure (rw null at e) v
  | inr program ↦ subst IsValid (same_value refl (rw program at e)) (
      load_ctx-IsValid _
        (modify-IsValid k k.current (exec_pcb k x interactively args) (λ _ _ w. ground arith) v))
]

collect-IsValid : (k : Kernel) (pid i : ℕ) → IsValid k → IsValid (collect k pid i).0
unfolding collect
collect-IsValid k pid i v = elim (Bool-cases ((entry k pid i).result == minus_one)) [
  | inl still ↦ rw still v
  | inr done ↦ rw done (set_entry-IsValid k pid i _ v)
]

start_waiting-IsValid :
    (k : Kernel) (o : Option ℕ) (pid : ℕ) → IsValid k → IsValid (start_waiting (k, o) pid).0
unfolding start_waiting
start_waiting-IsValid k none pid v = v
start_waiting-IsValid k (some i) pid v = collect-IsValid k pid i v

wait_at-IsValid :
    (k : Kernel) (pid q : ℕ) (o : Option ℕ) → IsValid k → IsValid (wait_at k pid q o).0
unfolding wait_at
wait_at-IsValid k pid q (some i) v = collect-IsValid k pid i v
wait_at-IsValid k pid q none v =
    start_waiting-IsValid (set_waiting k pid q).0 (set_waiting k pid q).1 pid
      (set_waiting-IsValid k pid q v)

pub sys_wait-IsValid : (k : Kernel) (pid q : ℕ) → IsValid k → IsValid (sys_wait k pid q).0
unfolding sys_wait
sys_wait-IsValid k pid q v = wait_at-IsValid k pid q (get_waiting k pid q) v

pub sys_fork_wait-IsValid : (k : Kernel) → IsValid k → IsValid (sys_fork_wait k)
unfolding sys_fork_wait
sys_fork_wait-IsValid k v =
    sys_wait-IsValid (sys_fork k) (running k).pid (running (sys_fork k)).pid (sys_fork-IsValid k v)
