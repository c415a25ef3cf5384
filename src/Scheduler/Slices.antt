-- ===== src/Scheduler/Slices.antt =====
-- Time slices: when the running process stays, and which process follows it.
use assembly_os.Prelude.{
  ℕ, ◌+◌, ◌≤◌, ◌<◌, ◌≡◌, ◌≢◌, refl, true, false, not, ◌||◌, ◌==◌, if◌then◌else◌, arith, ◌∙◌, sym,
  ap, inl, inr, ◌⊎◌, add32,
}
use mathlib.Core.Bool.{false≢true}
use assembly_os.Process.State.{Pcb, Kernel, process, running, interactive}
use assembly_os.Process.Invariant.{IsValid, running-pid}
use assembly_os.Process.Table.{active_process, set_current, load_ctx, save_ctx}
use assembly_os.Scheduler.{
  update_waiting, scheduler, dispatch, run_or_switch, start_slice, next_pid, is_eligible,
  toggled_type,
}
use assembly_os.Scheduler.Aging.{update_waiting_lem, aged}
use assembly_os.Scheduler.Longest.{IsCounting, waits}
use assembly_os.Scheduler.Choice.{next_pid_lem, toggled_type-ne, same_type}
use assembly_os.Scheduler.Switch.{update_waiting-IsValid, update_waiting-IsSameTable}

-- The running process does not wait.
pub running-update_waiting : (k : Kernel) → IsValid k → running (update_waiting k) ≡ running k
running-update_waiting k v =
    let all = update_waiting_lem k in
    ap (process (update_waiting k)) all.2
    ∙ all.0 k.current v.current_low v.current_high
    ∙ not_aged (running-pid k v)
  where
    not_aged : (running k).pid ≡ k.current → aged k k.current ≡ running k
    not_aged e = ground arith

active-update_waiting :
    (k : Kernel) (q : ℕ) → 1 ≤ q → q ≤ 30 → active_process (update_waiting k) q ≡ active_process k q
unfolding active_process
active-update_waiting k q low high =
    let e = (update_waiting_lem k).0 q low high in rw e (ground arith)

run_or_switch-keeps :
    (k : Kernel)
    → 0 < (running k).priority.time_left
    → (running k).priority.time_left ≤ 6
    → ((run_or_switch k).current ≡ k.current)
      × ((run_or_switch k).frame ≡ k.frame)
      × ((running (run_or_switch k)).priority.time_left + 1 ≡ (running k).priority.time_left)
      × ((running (run_or_switch k)).ctx ≡ (running k).ctx)
unfolding run_or_switch
run_or_switch-keeps k low high = ground arith

-- While its slice lasts the running process stays: the same process, the same interrupted and the
-- same saved context, and one tick less.
pub scheduler_keeps :
    (k : Kernel)
    → IsValid k
    → 0 < (running k).priority.time_left
    → ((scheduler k).current ≡ k.current)
      × ((scheduler k).frame ≡ k.frame)
      × ((running (scheduler k)).priority.time_left + 1 ≡ (running k).priority.time_left)
      × ((running (scheduler k)).ctx ≡ (running k).ctx)
unfolding scheduler
scheduler_keeps k v more =
    let all = update_waiting_lem k in
    let same = running-update_waiting k v in
    let small = (v.slots k.current v.current_low v.current_high).sliced in
    let (c, f, t, x) = run_or_switch-keeps (update_waiting k) (rw same more) (rw same small) in
    (
      c ∙ all.2,
      f ∙ all.3,
      t ∙ ap (λ (p : Pcb). p.priority.time_left) same,
      x ∙ ap (λ (p : Pcb). p.ctx) same,
    )

-- Room for one more round of waiting.
abbrev pub CanAge : Kernel → Type 0
CanAge k = (q : ℕ) → 1 ≤ q → q ≤ 30 → waits k q < 2147483647

-- The waiting times after `update_waiting`.
waits-update_waiting :
    (k : Kernel) (q : ℕ)
    → 1 ≤ q
    → q ≤ 30
    → waits (update_waiting k) q ≡ (
        if not (active_process k q) || q == (running k).pid then waits k q else add32 (waits k q) 1)
waits-update_waiting k q low high =
    ap (λ (p : Pcb). p.priority.waiting_time) ((update_waiting_lem k).0 q low high) ∙ ground arith

CanAge-IsCounting : (k : Kernel) → CanAge k → IsCounting (update_waiting k)
CanAge-IsCounting k small q low high =
    ground (arith, small q low high, waits-update_waiting k q low high)

-- The state after a switch to `pid`.
pub record IsSwitched (k k' : Kernel) (pid : ℕ) : Type 0 where
  pub current_is : k'.current ≡ pid
  pub frame_is : k'.frame ≡ (process k pid).ctx
  pub saved : (process k' k.current).ctx ≡ k.frame
  pub no_wait : (process k' pid).priority.waiting_time ≡ 0
  pub slice :
      (process k' pid).priority.time_left
      ≡ (if (process k pid).priority.process_type == interactive then 1 else 6)

run_or_switch-IsSwitched :
    (k : Kernel) (pid : ℕ)
    → (running k).pid ≡ k.current
    → (running k).priority.time_left ≡ 0
    → next_pid k ≡ pid
    → pid ≤ 30
    → pid ≢ k.current
    → IsSwitched k (run_or_switch k) pid
unfolding run_or_switch dispatch start_slice set_current load_ctx save_ctx
run_or_switch-IsSwitched k pid named spent e high ne = ground arith

module _ (k : Kernel) (q : ℕ) (v : IsValid k) (small : CanAge k) (fresh : waits k k.current ≡ 0)
    (low : 1 ≤ q) (high : q ≤ 30) (ne : q ≢ k.current) (live : active_process k q ≡ true) where
  abbrev aged_kernel : Kernel
  aged_kernel = update_waiting k

  aged-IsValid : IsValid aged_kernel
  aged-IsValid = update_waiting-IsValid k v

  aged_live : active_process aged_kernel q ≡ true
  aged_live = active-update_waiting k q low high ∙ live

  -- The other process has waited, and the running one has not.
  waited : 1 ≤ waits aged_kernel q
  waited =
      let other_pid = running-pid k v in
      ground (arith, waits-update_waiting k q low high, small q low high)

  not_waited : waits aged_kernel k.current ≡ 0
  not_waited =
      let own_pid = running-pid k v in
      ground (arith, waits-update_waiting k k.current v.current_low v.current_high)

  not_other_type :
      (p : ℕ)
      → (process aged_kernel p).priority.process_type
        ≡ toggled_type (running aged_kernel).priority.process_type
      → p ≢ k.current
  not_other_type p other e = toggled_type-ne (running aged_kernel).priority.process_type (
      sym other
      ∙ ap (λ c. (process aged_kernel c).priority.process_type) (e ∙ sym (update_waiting_lem k).2))

  own_type :
      is_eligible aged_kernel (toggled_type (running aged_kernel).priority.process_type) q ≡ false
      → (process aged_kernel q).priority.process_type ≡ (running aged_kernel).priority.process_type
  own_type idle =
      same_type aged_kernel q _
        (aged-IsValid.slots aged_kernel.current aged-IsValid.current_low
          aged-IsValid.current_high).typed
        (aged-IsValid.slots q low high).typed idle aged_live

  longer_wait : (p : ℕ) → waits aged_kernel q ≤ waits aged_kernel p → p ≢ k.current
  longer_wait p h e = let same = ap (waits aged_kernel) e in omega (arith, waited, not_waited, same)

  -- The choice differs from the running process.
  next_pid-ne :
      (next_pid aged_kernel ≢ k.current)
      × (1 ≤ next_pid aged_kernel)
      × (next_pid aged_kernel ≤ 30)
      × (active_process aged_kernel (next_pid aged_kernel) ≡ true)
  next_pid-ne = elim (next_pid_lem aged_kernel aged-IsValid (CanAge-IsCounting k small)) [
    | inl (e, idle) ↦ absurd (false≢true (sym (idle q low high) ∙ aged_live))
    | inr (l, h, act, kind, longest) ↦ (
      (λ e. elim kind [
        | inl other ↦ not_other_type (next_pid aged_kernel) other e
        | inr nobody ↦
            longer_wait (next_pid aged_kernel)
              (longest q low high aged_live (
                own_type (nobody q low high)
                ∙ ap (λ c. (process aged_kernel c).priority.process_type)
                    ((update_waiting_lem k).2 ∙ sym e)))
              e
      ]),
      l,
      h,
      act,
    )
  ]

  ctx-aged : (p : ℕ) → 1 ≤ p → p ≤ 30 → (process aged_kernel p).ctx ≡ (process k p).ctx
  ctx-aged p l h = ap (λ (x : Pcb). x.ctx) ((update_waiting_lem k).0 p l h) ∙ ground arith

  IsSwitched-aged :
      (k' : Kernel) (p : ℕ) → 1 ≤ p → p ≤ 30 → IsSwitched aged_kernel k' p → IsSwitched k k' p
  IsSwitched-aged k' p l h s = record {
    current_is = s.current_is;
    frame_is = s.frame_is ∙ ctx-aged p l h;
    saved =
        ap (λ c. (process k' c).ctx) (sym (update_waiting_lem k).2)
        ∙ s.saved
        ∙ (update_waiting_lem k).3;
    no_wait = s.no_wait;
    slice =
        s.slice
        ∙ ap (λ t. if t == interactive then 1 else 6) (update_waiting-IsSameTable k p).same_type;
  }

  -- With a valid table, in which the running process has a waiting time of 0 and every waiting time is
  -- less than 2 ^ 31 - 1, so that none wraps to a negative number in this round: if the slice is over and another process is active, `scheduler` switches to another active
  -- process: it loads the context that this one had saved, saves the interrupted one in the slot
  -- of the process that ran, and starts a slice of 1 tick for an interactive process and of 6 for
  -- any other.
  pub scheduler_switches :
      (running k).priority.time_left ≡ 0
      → (pid : ℕ) × (pid ≢ k.current)
        × (1 ≤ pid)
        × (pid ≤ 30)
        × (active_process k pid ≡ true)
        × IsSwitched k (scheduler k) pid
  unfolding scheduler
  scheduler_switches spent =
      let (other, l, h, act) = next_pid-ne in
      (
        next_pid aged_kernel,
        other,
        l,
        h,
        sym (active-update_waiting k (next_pid aged_kernel) l h) ∙ act,
        IsSwitched-aged (run_or_switch aged_kernel) (next_pid aged_kernel) l h (
            run_or_switch-IsSwitched aged_kernel (next_pid aged_kernel)
              (running-pid aged_kernel aged-IsValid)
              (ap (λ (p : Pcb). p.priority.time_left) (running-update_waiting k v) ∙ spent) refl h
              (λ e. other (e ∙ (update_waiting_lem k).2))),
      )

run_or_switch-ctx :
    (k : Kernel) (q : ℕ)
    → ((process (run_or_switch k) q).ctx ≡ (process k q).ctx)
      ⊎ ((q ≡ k.current) × ((process (run_or_switch k) q).ctx ≡ k.frame))
unfolding run_or_switch dispatch start_slice set_current load_ctx save_ctx
run_or_switch-ctx k q = ground arith

-- The scheduler writes no saved context but that of the process that ran, where it puts the
-- interrupted one.
pub scheduler-ctx :
    (k : Kernel) (q : ℕ)
    → 1 ≤ q
    → q ≤ 30
    → ((process (scheduler k) q).ctx ≡ (process k q).ctx)
      ⊎ ((q ≡ k.current) × ((process (scheduler k) q).ctx ≡ k.frame))
unfolding scheduler
scheduler-ctx k q low high =
    let all = update_waiting_lem k in
    let same : (process (update_waiting k) q).ctx ≡ (process k q).ctx =
      ap (λ (x : Pcb). x.ctx) (all.0 q low high) ∙ ground arith in
    elim (run_or_switch-ctx (update_waiting k) q) [
      | inl e ↦ inl (e ∙ same)
      | inr (here, e) ↦ inr (here ∙ all.2, e ∙ all.3)
    ]
