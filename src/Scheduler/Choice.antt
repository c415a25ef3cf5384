-- ===== src/Scheduler/Choice.antt =====
-- question/kernel/scheduler.c: `next_pid` finds a process whenever there is one.
use assembly_os.Prelude.{
  ℕ, zero, suc, ◌+◌, ◌≤◌, ◌≡◌, ◌≢◌, ◌↔◌, refl, true, false, arith, ◌∙◌, sym, ap, inl, inr, ◌⊎◌,
  minus_one,
}
use assembly_os.Process.State.{Kernel, process, running}
use assembly_os.Process.Invariant.{IsValid, running-pid}
use assembly_os.Process.Table.{active_process}
use assembly_os.Scheduler.{is_eligible, scan, next_pid_with_type, toggled_type, next_pid}
use assembly_os.Scheduler.Longest.{IsCounting, waits, next_pid_with_type_lem}

-- Whatever the waiting times are, the result is -1 or a pid of the table.
abbrev InRange : ℕ → Type 0
InRange b = (b ≡ minus_one) ⊎ ((1 ≤ b) × (b ≤ 30))

scan-range : (n i : ℕ) (k : Kernel) (ty m b : ℕ) → InRange b → InRange (scan n i k ty m b)
unfolding scan
scan-range zero i k ty m b h = h
scan-range (suc n) i k ty m b h = scan-range n (i + 1) k ty _ _ (ground arith)

next_pid_with_type-range : (k : Kernel) (ty : ℕ) → InRange (next_pid_with_type k ty)
unfolding next_pid_with_type
next_pid_with_type-range k ty = scan-range 30 0 k ty minus_one minus_one (inl refl)

pub next_pid-range :
    (k : Kernel) → (next_pid k ≡ minus_one) ⊎ ((1 ≤ next_pid k) × (next_pid k ≤ 30))
unfolding next_pid
next_pid-range k =
    let other = next_pid_with_type-range k (toggled_type (running k).priority.process_type) in
    let same = next_pid_with_type-range k (running k).priority.process_type in ground arith

pub is_eligible_iff :
    (k : Kernel) (ty q : ℕ)
    → (is_eligible k ty q ≡ true)
      ↔ ((active_process k q ≡ true) × ((process k q).priority.process_type ≡ ty))
unfolding is_eligible
is_eligible_iff k ty q = ((λ e. ground arith), λ e. ground arith)

pub toggled_type-ne : (t : ℕ) → toggled_type t ≢ t
unfolding toggled_type
toggled_type-ne t e = ground arith

-- A process of the other type is not the running one.
other_pid :
    (k : Kernel) (pid : ℕ)
    → IsValid k
    → is_eligible k (toggled_type (running k).priority.process_type) pid ≡ true
    → pid ≢ (running k).pid
other_pid k pid v match e = toggled_type-ne (running k).priority.process_type (
    sym ((is_eligible_iff k (toggled_type (running k).priority.process_type) pid).0 match).1
    ∙ ap (λ q. (process k q).priority.process_type) (e ∙ running-pid k v))

next_pid-other :
    (k : Kernel) (pid : ℕ)
    → next_pid_with_type k (toggled_type (running k).priority.process_type) ≡ pid
    → pid ≢ minus_one
    → pid ≢ (running k).pid
    → next_pid k ≡ pid
unfolding next_pid
next_pid-other k pid e ne other = ground arith

next_pid-same :
    (k : Kernel)
    → next_pid_with_type k (toggled_type (running k).priority.process_type) ≡ minus_one
    → next_pid k ≡ next_pid_with_type k (running k).priority.process_type
unfolding next_pid
next_pid-same k e = ground arith

pub same_type :
    (k : Kernel) (q own : ℕ)
    → own ≤ 1
    → (process k q).priority.process_type ≤ 1
    → is_eligible k (toggled_type own) q ≡ false
    → active_process k q ≡ true
    → (process k q).priority.process_type ≡ own
unfolding is_eligible toggled_type
same_type k q own h l a live = ground arith

neither_type :
    (k : Kernel) (q own : ℕ)
    → own ≤ 1
    → (process k q).priority.process_type ≤ 1
    → is_eligible k (toggled_type own) q ≡ false
    → is_eligible k own q ≡ false
    → active_process k q ≡ false
unfolding is_eligible toggled_type
neither_type k q own h l a b = ground arith

-- The scheduler's choice in a valid table in which no waiting time is negative, that is, all are less
-- than 2 ^ 31: -1 exactly if no process is active. Otherwise an active process, of the
-- type that does not run if any process of that type is active, and of its type the one that has
-- waited longest.
pub next_pid_lem :
    (k : Kernel)
    → IsValid k
    → IsCounting k
    → let other = toggled_type (running k).priority.process_type in
      ((next_pid k ≡ minus_one) × ((q : ℕ) → 1 ≤ q → q ≤ 30 → active_process k q ≡ false))
      ⊎ ((1 ≤ next_pid k)
          × (next_pid k ≤ 30)
          × (active_process k (next_pid k) ≡ true)
          × (((process k (next_pid k)).priority.process_type ≡ other)
              ⊎ ((q : ℕ) → 1 ≤ q → q ≤ 30 → is_eligible k other q ≡ false))
          × ((q : ℕ)
              → 1 ≤ q
              → q ≤ 30
              → active_process k q ≡ true
              → (process k q).priority.process_type ≡ (process k (next_pid k)).priority.process_type
              → waits k q ≤ waits k (next_pid k)))
next_pid_lem k v small = elim (next_pid_with_type_lem k other small) [
  | inr (low, high, match, longest) ↦
      rw (next_pid-other k _ refl (λ e. omega (arith, e)) (other_pid k _ v match)) (
        inr (
          low,
          high,
          ((is_eligible_iff k other _).0 match).0,
          inl ((is_eligible_iff k other _).0 match).1,
          λ q l h live same. longest q l h (
              (is_eligible_iff k other q).1 (live, same ∙ ((is_eligible_iff k other _).0 match).1)),
        ))
  | inl (e, idle) ↦ elim (next_pid_with_type_lem k own small) [
    | inr (low, high, match, longest) ↦ rw (next_pid-same k e) (
        inr (
          low,
          high,
          ((is_eligible_iff k own _).0 match).0,
          inr idle,
          λ q l h live same.
              longest q l h
                ((is_eligible_iff k own q).1 (live, same ∙ ((is_eligible_iff k own _).0 match).1)),
        ))
    | inl (f, idle') ↦
        rw (next_pid-same k e) (inl (f, λ q l h. neither q l h (idle q l h) (idle' q l h)))
  ]
]
  where
    own : ℕ
    own = (running k).priority.process_type

    other : ℕ
    other = toggled_type own

    neither :
        (q : ℕ)
        → 1 ≤ q
        → q ≤ 30
        → is_eligible k other q ≡ false
        → is_eligible k own q ≡ false
        → active_process k q ≡ false
    neither q l h a b =
        neither_type k q own (v.slots k.current v.current_low v.current_high).typed
          (v.slots q l h).typed a b
