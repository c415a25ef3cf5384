-- ===== src/Calls/Kill.antt =====
-- What `sys_kill` of question/kernel/system_calls.c does to the caller and to its victim.
use assembly_os.Prelude.{
  ℕ, ◌<◌, ◌≡◌, ◌≢◌, refl, arith, true, false, sym, ◌∙◌, ap, some, ◌>>=◌, get_or,
}
use assembly_os.Process.State.{Ctx, Priority, Pcb, Kernel, process, modify, running}
use assembly_os.Process.Invariant.{IsValid, running-pid}
use assembly_os.Process.Table.{reset_ctx, active_process}
use assembly_os.Process.Table.Invariant.{frame-IsValid}
use assembly_os.Process.Wait.{get_waiting, entry, waiter, update_waiters}
use assembly_os.Process.Wait.Laws.{IsAwaited, Delivered, update_waiters-Delivered}
use assembly_os.Process.Wait.Invariant.{update_waiters-IsValid, update_waiters-keeps}
use assembly_os.Scheduler.{scheduler}
use assembly_os.Scheduler.Slices.{scheduler_keeps}
use assembly_os.Calls.{
  fix_orphaned_processes, terminate, kill_term, sys_kill, exit_failure, sig_term,
}
use assembly_os.Calls.Exit.{
  get_waiting-same, fix_orphaned_processes_lem, fix_orphaned_processes-fields,
}
use assembly_os.Calls.Invariant.{fix_orphaned_processes-IsValid}

-- The parts of a slot that orphaning and telling the waiters leave alone.
record IsSameRun (k k' : Kernel) : Type 0 where
  same_current : k'.current ≡ k.current
  same_ctx : (q : ℕ) → (process k' q).ctx ≡ (process k q).ctx
  same_priority : (q : ℕ) → (process k' q).priority ≡ (process k q).priority
  same_sps : k'.sps ≡ k.sps

fix-IsSameRun : (k : Kernel) (ppid : ℕ) → IsSameRun k (fix_orphaned_processes k ppid)
fix-IsSameRun k ppid =
    let (c, f, s) = fix_orphaned_processes-fields k ppid in
    record {
      same_current = c;
      same_ctx = λ q. ap (λ (p : Pcb). p.ctx) (fix_orphaned_processes_lem k ppid q) ∙ ground arith;
      same_priority =
          λ q. ap (λ (p : Pcb). p.priority) (fix_orphaned_processes_lem k ppid q) ∙ ground arith;
      same_sps = s;
    }

update_waiters-IsSameRun :
    (k0 k k' : Kernel) (pid result : ℕ)
    → update_waiters k pid result ≡ some k'
    → IsSameRun k0 k
    → IsSameRun k0 k'
update_waiters-IsSameRun k0 k k' pid result e =
    update_waiters-keeps (IsSameRun k0) pid
      (λ k1 q i e' s. record {
        same_current = s.same_current;
        same_ctx = λ r. ground (arith, s.same_ctx r, s.same_ctx q);
        same_priority = λ r. ground (arith, s.same_priority r, s.same_priority q);
        same_sps = s.same_sps;
      })
      (λ k1 i s. record {
        same_current = s.same_current;
        same_ctx = λ r. ground (arith, s.same_ctx r, s.same_ctx pid);
        same_priority = λ r. ground (arith, s.same_priority r, s.same_priority pid);
        same_sps = s.same_sps;
      })
      k k' result e

-- Orphaning keeps the tables of waiting processes.
fix-waiting :
    (k : Kernel) (ppid q : ℕ)
    → (process (fix_orphaned_processes k ppid) q).waiting ≡ (process k q).waiting
fix-waiting k ppid q =
    ap (λ (p : Pcb). p.waiting) (fix_orphaned_processes_lem k ppid q) ∙ ground arith

fix-waiter : (k : Kernel) (ppid q j : ℕ) → waiter (fix_orphaned_processes k ppid) q j ≡ waiter k q j
fix-waiter k ppid q j =
    ap (λ (p : Pcb). get_or p.waiters j 0) (fix_orphaned_processes_lem k ppid q) ∙ ground arith

fix-IsAwaited :
    (k : Kernel) (ppid pid : ℕ) → IsAwaited k pid → IsAwaited (fix_orphaned_processes k ppid) pid
fix-IsAwaited k ppid pid awaited j below busy =
    let o = fix_orphaned_processes k ppid in
    let same = fix-waiter k ppid pid j in
    let (m, hit) = awaited j below (λ e. busy (same ∙ e)) in
    (
      m,
      ap (λ w. get_waiting o w pid) same
          ∙ get_waiting-same k o (waiter k pid j) pid (fix-waiting k ppid _)
          ∙ hit,
    )

-- The state in which SIG_TERM reaches its last step.
module _ (k : Kernel) (v : IsValid k) (awaited : IsAwaited k k.current) (pid : ℕ) where
  record IsTold (k1 : Kernel) : Type 0 where
    run : IsSameRun k k1
    valid : IsValid k1
    updated : update_waiters (fix_orphaned_processes k k.current) k.current exit_failure ≡ some k1
    told : Delivered (fix_orphaned_processes k k.current) k1 k.current exit_failure 0 5
    ends : kill_term k pid ≡ some (terminate k1 pid)

  kill_term-IsTold : (k1 : Kernel) × IsTold k1
  unfolding kill_term
  kill_term-IsTold =
      let o = fix_orphaned_processes k k.current in
      let ov = fix_orphaned_processes-IsValid k k.current v in
      let named = running-pid o ov ∙ (fix_orphaned_processes-fields k k.current).0 in
      let (k1, e, d) =
        update_waiters-Delivered o k.current exit_failure
          (fix-IsAwaited k k.current k.current awaited) in
      (
        k1,
        record {
          run =
              update_waiters-IsSameRun k o k1 k.current exit_failure e (fix-IsSameRun k k.current);
          valid = update_waiters-IsValid o k1 k.current exit_failure e ov;
          updated = e;
          told = d;
          ends = rw (running-pid k v, named, e, ◌>>=◌) refl;
        },
      )

  terminate_self :
      (k1 : Kernel)
      → IsTold k1
      → pid ≡ k.current
      → terminate k1 pid ≡ scheduler (record k1 { frame = reset_ctx k1 pid })
  unfolding terminate
  terminate_self k1 t e =
      let same = running-pid k1 t.valid ∙ t.run.same_current ∙ sym e in ground arith

  terminate_other :
      (k1 : Kernel)
      → IsTold k1
      → pid ≢ k.current
      → terminate k1 pid ≡ modify k1 pid (λ p. record p { ctx = reset_ctx k1 pid })
  unfolding terminate
  terminate_other k1 t ne = let same = running-pid k1 t.valid ∙ t.run.same_current in ground arith

sys_kill-term :
    (k k' : Kernel) (pid : ℕ)
    → active_process k pid ≡ true
    → kill_term k pid ≡ some k'
    → sys_kill k pid sig_term ≡ some (k', 0)
unfolding sys_kill
sys_kill-term k k' pid live e = rw (live, e, ◌>>=◌) refl

active-ctx :
    (k k' : Kernel) (q : ℕ)
    → (process k' q).ctx ≡ (process k q).ctx
    → active_process k' q ≡ active_process k q
unfolding active_process
active-ctx k k' q e = rw e refl

-- A process that kills itself before its slice is over runs on: the call succeeds, but the process
-- is still current and active, and the context to go on with has the program counter 0.
pub kill_self_runs_on :
    (k : Kernel)
    → IsValid k
    → IsAwaited k k.current
    → active_process k k.current ≡ true
    → 0 < (running k).priority.time_left
    → (k' : Kernel) × (sys_kill k k.current sig_term ≡ some (k', 0))
      × (k'.current ≡ k.current)
      × (k'.frame.pc ≡ 0)
      × (active_process k' k.current ≡ true)
unfolding reset_ctx
kill_self_runs_on k v awaited live more =
    let (k1, t) = kill_term-IsTold k v awaited k.current in
    let kf = record k1 { frame = reset_ctx k1 k.current } in
    let slice =
      ap (λ c. (process k1 c).priority.time_left) t.run.same_current
      ∙ ap (λ (p : Priority). p.time_left) (t.run.same_priority k.current) in
    let (c, f, left, ctx) =
      scheduler_keeps kf (frame-IsValid k1 (reset_ctx k1 k.current) t.valid) (rw slice more) in
    (
      scheduler kf,
      sys_kill-term k (scheduler kf) k.current live
          (t.ends ∙ ap some (terminate_self k v awaited k.current k1 t refl)),
      c ∙ t.run.same_current,
      ap (λ (x : Ctx). x.pc) f,
      active-ctx k (scheduler kf) k.current (
            ap (λ i. (process (scheduler kf) i).ctx) (sym (c ∙ t.run.same_current))
            ∙ ctx
            ∙ ap (λ i. (process k1 i).ctx) t.run.same_current
            ∙ t.run.same_ctx k.current)
          ∙ live,
    )

update_waiters-other :
    (k k' : Kernel) (pid result q : ℕ)
    → q ≢ pid
    → update_waiters k pid result ≡ some k'
    → (process k' q).waiters ≡ (process k q).waiters
update_waiters-other k k' pid result q ne e =
    update_waiters-keeps (λ k1. (process k1 q).waiters ≡ (process k q).waiters) pid
      (λ k1 r i e' s. ground arith) (λ k1 i s. ground arith) k k' result e refl

inactive-modify :
    (k : Kernel) (pid q : ℕ)
    → active_process (modify k pid (λ p. record p { ctx = reset_ctx k q })) pid ≡ false
unfolding active_process reset_ctx
inactive-modify k pid q = ground arith

-- A kill of another process frees the victim's slot, but it is the caller whose end is announced:
-- every process that waits for the caller finds EXIT_FAILURE in its entry and is struck from the
-- caller's list, while the caller stays current and the victim's waiters stay registered.
pub kill_tells_own_waiters :
    (k : Kernel) (pid : ℕ)
    → IsValid k
    → IsAwaited k k.current
    → active_process k pid ≡ true
    → pid ≢ k.current
    → (k' : Kernel) × (sys_kill k pid sig_term ≡ some (k', 0))
      × (active_process k' pid ≡ false)
      × (k'.current ≡ k.current)
      × ((j m : ℕ)
          → j < 5
          → waiter k k.current j ≢ 0
          → get_waiting k (waiter k k.current j) k.current ≡ some m
          → ((entry k' (waiter k k.current j) m).result ≡ exit_failure)
            × (waiter k' k.current j ≡ 0))
      × ((j : ℕ) → waiter k' pid j ≡ waiter k pid j)
kill_tells_own_waiters k pid v awaited live ne =
    let (k1, t) = kill_term-IsTold k v awaited pid in
    let o = fix_orphaned_processes k k.current in
    let k' = modify k1 pid (λ p. record p { ctx = reset_ctx k1 pid }) in
    (
      k',
      sys_kill-term k k' pid live (t.ends ∙ ap some (terminate_other k v awaited pid k1 t ne)),
      inactive-modify k1 pid pid,
      t.run.same_current,
      λ j m below busy hit.
          let same = fix-waiter k k.current k.current j in
          (
            ground (
              arith,
              ap (λ w. (entry k1 w m).result) (sym same)
                  ∙ t.told.given j m (omega arith) below (λ e. busy (sym same ∙ e))
                      (ap (λ w. get_waiting o w k.current) same
                        ∙ get_waiting-same k o (waiter k k.current j) k.current
                            (fix-waiting k k.current _)
                        ∙ hit),
            ),
            ground (arith, t.told.cleared j (omega arith) below),
          ),
      λ j. ground (
        arith,
        ap (λ xs. get_or xs j 0) (update_waiters-other o k1 k.current exit_failure pid ne t.updated)
            ∙ fix-waiter k k.current pid j,
      ),
    )
