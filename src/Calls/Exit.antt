-- ===== src/Calls/Exit.antt =====
-- `sys_exit` and `sys_kill` of question/kernel/system_calls.c.
use assembly_os.Prelude.{
  ℕ, zero, suc, ◌+◌, ◌≤◌, ◌<◌, ◌≡◌, ◌≢◌, inl, inr, refl, arith, false, ◌==◌, sym, ◌∙◌, ap, subst,
  some, ◌>>=◌, Bool, ◌&&◌, leb, ltb, if◌then◌else◌, get_or,
}
use assembly_os.Process.State.{Ctx, Waiting, Pcb, Kernel, process, running}
use assembly_os.Process.Invariant.{IsValid, running-pid}
use assembly_os.Process.Table.{new_process, new_pcb, reset_ctx, active_process}
use assembly_os.Process.Wait.{get_waiting, entry, waiter, update_waiters, no_waiting}
use assembly_os.Process.Wait.Laws.{IsAwaited, Delivered, update_waiters-Delivered}
use assembly_os.Process.Wait.Invariant.{update_waiters-IsValid, update_waiters-keeps}
use assembly_os.Scheduler.{scheduler}
use assembly_os.Scheduler.Switch.{IsSameProcess, scheduler-IsSameTable}
use assembly_os.Scheduler.Slices.{scheduler-ctx}
use assembly_os.Calls.{orphan, orphan_round, orphan_rounds, fix_orphaned_processes, leave, sys_exit}
use assembly_os.Calls.Invariant.{fix_orphaned_processes-IsValid, leave-IsValid}

abbrev orphaned_if : Bool → ℕ → Pcb → Pcb
orphaned_if in_range ppid p = if in_range && p.ppid == ppid then orphan p else p

orphan_round_lem :
    (ppid pid q : ℕ) (k : Kernel)
    → process (orphan_round ppid pid k) q ≡ orphaned_if (q == pid) ppid (process k q)
unfolding orphan_round
orphan_round_lem ppid pid q k = ground arith

orphan_rounds_lem :
    (n pid ppid : ℕ) (k : Kernel) (q : ℕ)
    → process (orphan_rounds n pid ppid k) q
      ≡ orphaned_if (leb pid q && ltb q (pid + n)) ppid (process k q)
unfolding orphan_rounds
orphan_rounds_lem zero pid ppid k q = ground arith
orphan_rounds_lem (suc n) pid ppid k q = ground (
  arith,
  orphan_rounds_lem n (pid + 1) ppid (orphan_round ppid pid k) q,
  orphan_round_lem ppid pid q k,
)

orphan_rounds-fields :
    (n pid ppid : ℕ) (k : Kernel)
    → ((orphan_rounds n pid ppid k).current ≡ k.current)
      × ((orphan_rounds n pid ppid k).frame ≡ k.frame)
      × ((orphan_rounds n pid ppid k).sps ≡ k.sps)
unfolding orphan_rounds orphan_round
orphan_rounds-fields zero pid ppid k = (refl, refl, refl)
orphan_rounds-fields (suc n) pid ppid k =
    let rest = orphan_rounds-fields n (pid + 1) ppid (orphan_round ppid pid k) in ground arith

-- Exactly the slots between 1 and 30 whose parent is `ppid` get parent 0, and nothing else changes.
pub fix_orphaned_processes_lem :
    (k : Kernel) (ppid q : ℕ)
    → process (fix_orphaned_processes k ppid) q ≡ (
        if (leb 1 q && ltb q 31) && (process k q).ppid == ppid
        then orphan (process k q)
        else process k q)
unfolding fix_orphaned_processes
fix_orphaned_processes_lem k ppid q = orphan_rounds_lem 30 1 ppid k q

pub fix_orphaned_processes-fields :
    (k : Kernel) (ppid : ℕ)
    → ((fix_orphaned_processes k ppid).current ≡ k.current)
      × ((fix_orphaned_processes k ppid).frame ≡ k.frame)
      × ((fix_orphaned_processes k ppid).sps ≡ k.sps)
unfolding fix_orphaned_processes
fix_orphaned_processes-fields k ppid = orphan_rounds-fields 30 1 ppid k

-- The state from which `leave` calls the scheduler.
abbrev left : Kernel → Kernel
left k =
    let orphaned = fix_orphaned_processes k (running k).pid in
    let renewed = new_process orphaned (running orphaned).pid 0 in
    record renewed { frame = reset_ctx renewed (running renewed).pid }

new_process-other :
    (k : Kernel) (pid ppid q : ℕ) → q ≢ pid → process (new_process k pid ppid) q ≡ process k q
unfolding new_process
new_process-other k pid ppid q ne = ground arith

new_process-pc :
    (k : Kernel) (pid ppid q : ℕ) → q ≡ pid → (process (new_process k pid ppid) q).ctx.pc ≡ 0
unfolding new_process new_pcb reset_ctx
new_process-pc k pid ppid q e = ground arith

new_process-current : (k : Kernel) (pid ppid : ℕ) → (new_process k pid ppid).current ≡ k.current
unfolding new_process
new_process-current k pid ppid = refl

reset_ctx-pc : (k : Kernel) (pid : ℕ) → (reset_ctx k pid).pc ≡ 0
unfolding reset_ctx
reset_ctx-pc k pid = refl

module _ (k : Kernel) (v : IsValid k) where
  abbrev orphaned : Kernel
  orphaned = fix_orphaned_processes k (running k).pid

  orphaned-pid : (running orphaned).pid ≡ k.current
  orphaned-pid =
      running-pid orphaned (fix_orphaned_processes-IsValid k (running k).pid v)
      ∙ (fix_orphaned_processes-fields k (running k).pid).0

  left-other :
      (q : ℕ) → q ≢ k.current → process (left k) q ≡ process (fix_orphaned_processes k k.current) q
  left-other q ne =
      new_process-other orphaned (running orphaned).pid 0 q (λ e. ne (e ∙ orphaned-pid))
      ∙ ap (λ p. process (fix_orphaned_processes k p) q) (running-pid k v)

  left-pc : (process (left k) k.current).ctx.pc ≡ 0
  left-pc = new_process-pc orphaned (running orphaned).pid 0 k.current (sym orphaned-pid)

  -- `leave` frees the slot of the process that ran, whichever process runs next.
  leave-pc : (process (leave k) k.current).ctx.pc ≡ 0
  unfolding leave
  leave-pc = elim (scheduler-ctx (left k) k.current v.current_low v.current_high) [
    | inl e ↦ ap (λ (c : Ctx). c.pc) e ∙ left-pc
    | inr (_, e) ↦
        ap (λ (c : Ctx). c.pc) e ∙ reset_ctx-pc (new_process orphaned (running orphaned).pid 0) _
  ]

  leave-other :
      (q : ℕ)
      → q ≢ k.current
      → IsSameProcess (process (leave k) q) (process (fix_orphaned_processes k k.current) q)
  unfolding leave
  leave-other q ne =
      subst (IsSameProcess (process (scheduler (left k)) q)) (left-other q ne)
        (scheduler-IsSameTable (left k) q)

  -- The other processes keep their waiting tables.
  leave-waiting : (q : ℕ) → q ≢ k.current → (process (leave k) q).waiting ≡ (process k q).waiting
  leave-waiting q ne =
      (leave-other q ne).same_waiting
      ∙ ap (λ (p : Pcb). p.waiting) (fix_orphaned_processes_lem k k.current q)
      ∙ ground arith

  -- A child of the process that leaves has no parent.
  leave-ppid :
      (q : ℕ)
      → 1 ≤ q
      → q ≤ 30
      → q ≢ k.current
      → (process k q).ppid ≡ k.current
      → (process (leave k) q).ppid ≡ 0
  leave-ppid q low high ne child =
      (leave-other q ne).same_ppid
      ∙ ap (λ (p : Pcb). p.ppid) (fix_orphaned_processes_lem k k.current q)
      ∙ ground arith

-- What holds after the process that ran has left with status `x`.
pub record IsLeft (k k' : Kernel) (x : ℕ) : Type 0 where
  pub valid : IsValid k'
  pub freed : active_process k' k.current ≡ false
  pub told :
      (j m : ℕ)
      → j < 5
      → waiter k k.current j ≢ 0
      → waiter k k.current j ≢ k.current
      → get_waiting k (waiter k k.current j) k.current ≡ some m
      → (get_waiting k' (waiter k k.current j) k.current ≡ some m)
        × ((entry k' (waiter k k.current j) m).result ≡ x)
  pub orphans :
      (q : ℕ)
      → 1 ≤ q
      → q ≤ 30
      → q ≢ k.current
      → (process k q).ppid ≡ k.current
      → (process k' q).ppid ≡ 0

-- Equal waiting tables are searched alike.
pub get_waiting-same :
    (k k' : Kernel) (w pid : ℕ)
    → (process k' w).waiting ≡ (process k w).waiting
    → get_waiting k' w pid ≡ get_waiting k w pid
unfolding get_waiting
get_waiting-same k k' w pid e = rw e refl

entry-same :
    (k k' : Kernel) (w m : ℕ)
    → (process k' w).waiting ≡ (process k w).waiting
    → entry k' w m ≡ entry k w m
entry-same k k' w m e = ap (λ xs. get_or xs m no_waiting) e

update_waiters-same :
    (k k1 : Kernel) (pid result : ℕ)
    → update_waiters k pid result ≡ some k1
    → (k1.current ≡ k.current) × ((q : ℕ) → (process k1 q).ppid ≡ (process k q).ppid)
update_waiters-same k k1 pid result e =
    update_waiters-keeps
      (λ k'. (k'.current ≡ k.current) × ((q : ℕ) → (process k' q).ppid ≡ (process k q).ppid)) pid
      (λ k' q i e' (c, p). (c, λ r. ground (arith, p r, p q)))
      (λ k' i (c, p). (c, λ r. ground (arith, p r, p pid))) k k1 result e (refl, λ r. refl)

inactive : (k : Kernel) (q : ℕ) → (process k q).ctx.pc ≡ 0 → active_process k q ≡ false
unfolding active_process
inactive k q e = ground arith

module _ (k k1 : Kernel) (x : ℕ) (v1 : IsValid k1) (d : Delivered k k1 k.current x 0 5)
    (same_current : k1.current ≡ k.current)
    (same_ppid : (q : ℕ) → (process k1 q).ppid ≡ (process k q).ppid) where
  ne_current : (q : ℕ) → q ≢ k.current → q ≢ k1.current
  ne_current q ne e = ne (e ∙ same_current)

  leave-IsLeft : IsLeft k (leave k1) x
  leave-IsLeft = record {
    valid = leave-IsValid k1 v1;
    freed =
        inactive (leave k1) k.current
          (subst (λ c. (process (leave k1) c).ctx.pc ≡ 0) same_current (leave-pc k1 v1));
    told = λ j m below busy other hit.
        let w = waiter k k.current j in
        let e = leave-waiting k1 v1 w (ne_current w other) in
        (
          get_waiting-same k1 (leave k1) w k.current e ∙ d.found w ∙ hit,
          ap (λ (y : Waiting). y.result) (entry-same k1 (leave k1) w m e)
              ∙ d.given j m (omega arith) below busy hit,
        );
    orphans = λ q low high ne child.
        leave-ppid k1 v1 q low high (ne_current q ne) (same_ppid q ∙ child ∙ sym same_current);
  }

-- `sys_exit` succeeds if every waiter of the caller has an entry for it. Then the table stays
-- valid, the caller's slot is free, its children have parent 0, and every other process that
-- waited for it finds the status in its entry.
pub sys_exit_lem :
    (k : Kernel) (x : ℕ)
    → IsValid k
    → IsAwaited k k.current
    → (k' : Kernel) × (sys_exit k x ≡ some k') × IsLeft k k' x
unfolding sys_exit
sys_exit_lem k x v awaited =
    let (k1, told, d) = update_waiters-Delivered k k.current x awaited in
    let (same_current, same_ppid) = update_waiters-same k k1 k.current x told in
    let v1 = update_waiters-IsValid k k1 k.current x told v in
    (leave k1, rw (running-pid k v, told, ◌>>=◌), leave-IsLeft k k1 x v1 d same_current same_ppid)
