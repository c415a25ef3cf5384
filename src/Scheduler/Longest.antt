-- ===== src/Scheduler/Longest.antt =====
-- question/kernel/scheduler.c: `next_pid_with_type` finds the process that has waited longest.
use assembly_os.Prelude.{
  ℕ, zero, suc, ◌+◌, ◌≤◌, ◌<◌, ◌≡◌, refl, true, false, ◌==◌, arith, ◌∙◌, sym, subst, Bool-cases,
  inl, inr, ◌⊎◌, slt, minus_one, ltb, ltb→lt, ltb→le,
}
use mathlib.Core.Bool.{false≢true}
use assembly_os.Process.State.{Kernel, process, running}
use assembly_os.Scheduler.{candidate, is_eligible, scan, next_pid_with_type}
use assembly_os.Scheduler.Aging.{visit, visit_lem}

abbrev pub waits : Kernel → ℕ → ℕ
waits k q = (process k q).priority.waiting_time

-- No waiting time has passed the largest `int`.
abbrev pub IsCounting : Kernel → Type 0
IsCounting k = (q : ℕ) → 1 ≤ q → q ≤ 30 → waits k q < 2147483648

slt-minus_one : (w : ℕ) → w < 2147483648 → slt minus_one w ≡ true
slt-minus_one w h = ground arith

slt-small : (m w : ℕ) → m < 2147483648 → w < 2147483648 → slt m w ≡ ltb m w
slt-small m w h l = ground arith

module _ (k : Kernel) (ty : ℕ) where
  -- After `i` rounds nothing eligible was seen.
  record Unseen (i m b : ℕ) : Type 0 where
    pub no_best : b ≡ minus_one
    pub no_time : m ≡ minus_one
    pub idle : (j : ℕ) → j < i → is_eligible k ty (candidate k j) ≡ false

  -- After `i` rounds `b` has waited longest, and is the first to have.
  pub record Best (i m b : ℕ) : Type 0 where
    pub low : 1 ≤ b
    pub high : b ≤ 30
    pub eligible : is_eligible k ty b ≡ true
    pub time : m ≡ waits k b
    pub longest :
        (j : ℕ) → j < i → is_eligible k ty (candidate k j) ≡ true → waits k (candidate k j) ≤ m

  scan-zero : (i m b : ℕ) → scan zero i k ty m b ≡ b
  unfolding scan
  scan-zero i m b = refl

  scan-better :
      (n i m b : ℕ)
      → is_eligible k ty (candidate k i) ≡ true
      → slt m (waits k (candidate k i)) ≡ true
      → scan (suc n) i k ty m b ≡ scan n (i + 1) k ty (waits k (candidate k i)) (candidate k i)
  unfolding scan
  scan-better n i m b e l = rw (e, l)

  scan-same :
      (n i m b : ℕ)
      → (is_eligible k ty (candidate k i) ≡ false) ⊎ (slt m (waits k (candidate k i)) ≡ false)
      → scan (suc n) i k ty m b ≡ scan n (i + 1) k ty m b
  unfolding scan
  scan-same n i m b (inl e) = rw e
  scan-same n i m b (inr l) = ground arith

  -- The first `i` rounds and the one that follows them.
  or_last : (P : ℕ → Type 0) (i : ℕ) → ((j : ℕ) → j < i → P j) → P i → (j : ℕ) → j < i + 1 → P j
  or_last P i before here j h = elim (Bool-cases (j == i)) [
    | inl e ↦ subst P (last_number j (ground arith)) here
    | inr e ↦ before j (ground arith)
  ]
    where
      last_number : (m : ℕ) → m ≡ i → i ≡ m
      last_number m e = sym e

  module _ (small : IsCounting k) where
    small_candidate : (i : ℕ) → waits k (candidate k i) < 2147483648
    small_candidate i = small (candidate k i) (omega arith) (omega arith)

    Unseen-skip :
        (i m b : ℕ) → is_eligible k ty (candidate k i) ≡ false → Unseen i m b → Unseen (i + 1) m b
    Unseen-skip i m b e u = record {
      no_best = u.no_best;
      no_time = u.no_time;
      idle = or_last (λ j. is_eligible k ty (candidate k j) ≡ false) i u.idle e;
    }

    Best-new :
        (i m b : ℕ)
        → is_eligible k ty (candidate k i) ≡ true
        → ((j : ℕ)
            → j < i
            → is_eligible k ty (candidate k j) ≡ true
            → waits k (candidate k j) ≤ waits k (candidate k i))
        → Best (i + 1) (waits k (candidate k i)) (candidate k i)
    Best-new i m b e before = record {
      low = omega arith;
      high = omega arith;
      eligible = e;
      time = refl;
      longest =
          or_last
            (λ j.
              is_eligible k ty (candidate k j) ≡ true
              → waits k (candidate k j) ≤ waits k (candidate k i))
            i before (λ _. omega arith);
    }

    Best-keep :
        (i m b : ℕ)
        → (is_eligible k ty (candidate k i) ≡ true → waits k (candidate k i) ≤ m)
        → Best i m b
        → Best (i + 1) m b
    Best-keep i m b e s = record {
      low = s.low;
      high = s.high;
      eligible = s.eligible;
      time = s.time;
      longest =
          or_last (λ j. is_eligible k ty (candidate k j) ≡ true → waits k (candidate k j) ≤ m) i
            s.longest e;
    }

    abbrev Outcome : ℕ → ℕ → Type 0
    Outcome hi b = (Unseen hi minus_one b) ⊎ ((t : ℕ) × Best hi t b)

    scan-Best : (n i hi m b : ℕ) → i + n ≡ hi → Best i m b → Outcome hi (scan n i k ty m b)
    scan-Best zero i hi m b e s =
        inr (m, rw (scan-zero i m b) (subst (λ h. Best h m b) (omega arith) s))
    scan-Best (suc n) i hi m b e s = elim (Bool-cases (is_eligible k ty (candidate k i))) [
      | inr no_match ↦ rw (scan-same n i m b (inl no_match)) (
          scan-Best n (i + 1) hi m b (omega arith)
            (Best-keep i m b (λ t. absurd (false≢true (sym no_match ∙ t))) s))
      | inl match ↦ elim (Bool-cases (slt m (waits k (candidate k i)))) [
        | inl more ↦ rw (scan-better n i m b match more) (
            scan-Best n (i + 1) hi (waits k (candidate k i)) (candidate k i) (omega arith)
              (Best-new i m b match (λ j h t. omega (arith, s.longest j h t, more_lem more))))
        | inr less ↦
            rw (scan-same n i m b (inr less))
              (scan-Best n (i + 1) hi m b (omega arith) (Best-keep i m b (λ _. less_lem less) s))
      ]
    ]
      where
        bounded : m < 2147483648
        bounded = omega (arith, s.time, small b s.low s.high)

        more_lem : slt m (waits k (candidate k i)) ≡ true → m < waits k (candidate k i)
        more_lem t = ltb→lt _ _ (sym (slt-small m _ bounded (small_candidate i)) ∙ t)

        less_lem : slt m (waits k (candidate k i)) ≡ false → waits k (candidate k i) ≤ m
        less_lem t = ltb→le _ _ (sym (slt-small m _ bounded (small_candidate i)) ∙ t)

    scan-Unseen : (n i hi m b : ℕ) → i + n ≡ hi → Unseen i m b → Outcome hi (scan n i k ty m b)
    scan-Unseen zero i hi m b e u = inl (
        rw (scan-zero i m b)
          (record { no_best = u.no_best; no_time = refl; idle = λ j h. u.idle j (omega arith) }))
    scan-Unseen (suc n) i hi m b e u = elim (Bool-cases (is_eligible k ty (candidate k i))) [
      | inr no_match ↦
          rw (scan-same n i m b (inl no_match))
            (scan-Unseen n (i + 1) hi m b (omega arith) (Unseen-skip i m b no_match u))
      | inl match ↦
          rw (scan-better n i m b match (rw u.no_time (slt-minus_one _ (small_candidate i)))) (
            scan-Best n (i + 1) hi (waits k (candidate k i)) (candidate k i) (omega arith)
              (Best-new i m b match (λ j h t. absurd (false≢true (sym (u.idle j h) ∙ t)))))
    ]

-- Of a slot between 1 and 30: what holds of every round's candidate holds of it.
covered :
    (k : Kernel) (P : ℕ → Type 0)
    → ((j : ℕ) → j < 30 → P (candidate k j))
    → (q : ℕ) → 1 ≤ q
    → q ≤ 30
    → P q
covered k P all q low high =
    let (e, below) = visit_lem (running k).pid q low high in
    subst P e (all (visit (running k).pid q) below)

-- The choice within a type: -1 exactly if no active process has the type, and otherwise an active
-- process of the type that has waited at least as long as each other one.
pub next_pid_with_type_lem :
    (k : Kernel) (ty : ℕ)
    → IsCounting k
    → ((next_pid_with_type k ty ≡ minus_one)
        × ((q : ℕ) → 1 ≤ q → q ≤ 30 → is_eligible k ty q ≡ false))
      ⊎ ((1 ≤ next_pid_with_type k ty)
          × (next_pid_with_type k ty ≤ 30)
          × (is_eligible k ty (next_pid_with_type k ty) ≡ true)
          × ((q : ℕ)
              → 1 ≤ q
              → q ≤ 30
              → is_eligible k ty q ≡ true
              → waits k q ≤ waits k (next_pid_with_type k ty)))
unfolding next_pid_with_type
next_pid_with_type_lem k ty small =
    elim (scan-Unseen k ty small 30 0 30 minus_one minus_one (omega arith)
      (record { no_best = refl; no_time = refl; idle = λ j h. absurd (omega arith) })) [
        | inl u ↦ inl (u.no_best, covered k (λ q. is_eligible k ty q ≡ false) u.idle)
        | inr (t, s) ↦ inr (
          s.low,
          s.high,
          s.eligible,
          covered k
              (λ q.
                is_eligible k ty q ≡ true
                → waits k q ≤ waits k (scan 30 0 k ty minus_one minus_one))
              (λ j h e. omega (arith, s.longest j h e, s.time)),
        )
      ]
