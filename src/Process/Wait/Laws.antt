-- ===== src/Process/Wait/Laws.antt =====
-- `update_waiters` hands its result to every waiter, and fails only at a waiter with no entry.
use assembly_os.Prelude.{
  ℕ, zero, suc, ◌+◌, ◌≤◌, ◌<◌, ◌≡◌, ◌≢◌, refl, Option, some, ◌==◌, if◌then◌else◌, arith, length,
  index_where-found, Bool-cases, inl, inr, ap, ◌∙◌, sym, subst, ◌>>=◌,
}
use assembly_os.Process.State.{Waiting, Kernel, process}
use assembly_os.Process.Wait.{
  get_waiting, entry, set_entry, waiter, set_waiter, no_waiting, update_waiter, update_waiters_from,
  update_waiters,
}
use assembly_os.Process.Wait.Writes.{
  get_waiting-set_entry, get_waiting-set_waiter, waiter-set_waiter, waiter-set_entry,
  entry-set_waiter, entry-set_entry, result-set_entry,
}

-- What the round for the waiter at index `i` does.
record Round (k k' : Kernel) (pid result i : ℕ) : Type 0 where
  cleared : (j : ℕ) → waiter k' pid j ≡ (if j == i then 0 else waiter k pid j)
  found : (w : ℕ) → get_waiting k' w pid ≡ get_waiting k w pid
  given :
      (j : ℕ)
      → waiter k pid i ≢ 0
      → get_waiting k (waiter k pid i) pid ≡ some j
      → (entry k' (waiter k pid i) j).result ≡ result
  kept : (w j : ℕ) → (entry k w j).result ≡ result → (entry k' w j).result ≡ result

Round-idle : (k : Kernel) (pid result i : ℕ) → waiter k pid i ≡ 0 → Round k k pid result i
Round-idle k pid result i idle = record {
  cleared = λ j. ground arith;
  found = λ w. refl;
  given = λ j busy. absurd (busy idle);
  kept = λ w j e. e;
}

-- The entry that is found lies in the table.
get_waiting-in_range :
    (k : Kernel) (w pid j : ℕ)
    → get_waiting k w pid ≡ some j
    → (j < length (process k w).waiting) × ((entry k w j).pid ≡ pid)
unfolding get_waiting
get_waiting-in_range k w pid j e =
    let hit =
      index_where-found (λ (x : Waiting). x.pid == pid) 20 (process k w).waiting j no_waiting e in
    (hit.1, ground arith)

pub same_index : {o : Option ℕ} {i j : ℕ} → o ≡ some i → o ≡ some j → i ≡ j
same_index p q = ground arith

module _ (k : Kernel) (pid result i j : ℕ) (e : get_waiting k (waiter k pid i) pid ≡ some j) where
  abbrev filled : Kernel
  filled =
      set_entry k (waiter k pid i) j
        (record { pid = (entry k (waiter k pid i) j).pid; result = result })

  Round-busy : Round k (set_waiter filled pid i 0) pid result i
  Round-busy = record {
    cleared = λ m.
        waiter-set_waiter filled pid i m
        ∙ ground (
          arith,
          waiter-set_entry k (waiter k pid i) j pid m
              (record { pid = (entry k (waiter k pid i) j).pid; result = result }),
        );
    found = λ w.
        get_waiting-set_waiter filled pid i 0 w pid
        ∙ get_waiting-set_entry k (waiter k pid i) j w pid _ refl;
    given = λ m busy known.
        subst (λ n. (entry (set_waiter filled pid i 0) (waiter k pid i) n).result ≡ result)
          (same_index e known)
          (ap (λ (x : Waiting). x.result)
            (entry-set_waiter filled pid i 0 (waiter k pid i) j
              ∙ entry-set_entry k (waiter k pid i) j _
                  (get_waiting-in_range k (waiter k pid i) pid j e).0));
    kept = λ w m old.
        ap (λ (x : Waiting). x.result) (entry-set_waiter filled pid i 0 w m)
        ∙ result-set_entry k (waiter k pid i) j w m result _ refl old;
  }

update_waiter-Round :
    (k : Kernel) (pid result i : ℕ)
    → (waiter k pid i ≢ 0 → (j : ℕ) × (get_waiting k (waiter k pid i) pid ≡ some j))
    → (k' : Kernel) × (update_waiter k pid result i ≡ some k') × Round k k' pid result i
unfolding update_waiter
update_waiter-Round k pid result i known = elim (Bool-cases (waiter k pid i == 0)) [
  | inl idle ↦ (k, rw idle, Round-idle k pid result i (ground arith))
  | inr busy ↦
      let (j, e) = known (ground arith) in
      (
        set_waiter (filled k pid result i j e) pid i 0,
        rw busy (rw (e, ◌>>=◌)),
        Round-busy k pid result i j e,
      )
]

-- What the rounds from `lo` up to `hi` do together.
pub record Delivered (k k' : Kernel) (pid result lo hi : ℕ) : Type 0 where
  pub cleared : (j : ℕ) → lo ≤ j → j < hi → waiter k' pid j ≡ 0
  pub found : (w : ℕ) → get_waiting k' w pid ≡ get_waiting k w pid
  pub given :
      (j m : ℕ)
      → lo ≤ j
      → j < hi
      → waiter k pid j ≢ 0
      → get_waiting k (waiter k pid j) pid ≡ some m
      → (entry k' (waiter k pid j) m).result ≡ result
  pub untouched : (j : ℕ) → j < lo → waiter k' pid j ≡ waiter k pid j
  kept : (w j : ℕ) → (entry k w j).result ≡ result → (entry k' w j).result ≡ result

later_waiter :
    (k k1 : Kernel) (pid result i : ℕ)
    → Round k k1 pid result i
    → (j : ℕ) → i < j
    → waiter k1 pid j ≡ waiter k pid j
later_waiter k k1 pid result i r j h = ground (arith, r.cleared j)

module _ (k k1 k' : Kernel) (pid result i hi : ℕ) (r : Round k k1 pid result i)
    (d : Delivered k1 k' pid result (i + 1) hi) where
  given_first :
      (j m : ℕ)
      → j ≡ i
      → waiter k pid j ≢ 0
      → get_waiting k (waiter k pid j) pid ≡ some m
      → (entry k' (waiter k pid j) m).result ≡ result
  given_first j m e =
      subst
        (λ n.
          waiter k pid n ≢ 0
          → get_waiting k (waiter k pid n) pid ≡ some m
          → (entry k' (waiter k pid n) m).result ≡ result)
        (sym e) (λ busy known. d.kept (waiter k pid i) m (r.given m busy known))

  given_later :
      (j m : ℕ)
      → i < j
      → j < hi
      → waiter k pid j ≢ 0
      → get_waiting k (waiter k pid j) pid ≡ some m
      → (entry k' (waiter k pid j) m).result ≡ result
  given_later j m low high busy known =
      let same = later_waiter k k1 pid result i r j low in
      subst (λ w. (entry k' w m).result ≡ result) same
        (d.given j m (omega arith) high (λ idle. busy (sym same ∙ idle))
          (ap (λ w. get_waiting k1 w pid) same ∙ r.found (waiter k pid j) ∙ known))

  Delivered-step : Delivered k k' pid result i hi
  Delivered-step = record {
    cleared = λ j low high. elim (Bool-cases (j == i)) [
      | inl here ↦ d.untouched j (ground arith) ∙ ground (arith, r.cleared j)
      | inr ne ↦ d.cleared j (ground arith) high
    ];
    found = λ w. d.found w ∙ r.found w;
    given = λ j m low high. elim (Bool-cases (j == i)) [
      | inl here ↦ given_first j m (ground arith)
      | inr ne ↦ given_later j m (ground arith) high
    ];
    untouched = λ j low. d.untouched j (omega arith) ∙ ground (arith, r.cleared j);
    kept = λ w j e. d.kept w j (r.kept w j e);
  }

Delivered-nil : (k : Kernel) (pid result i hi : ℕ) → hi ≤ i → Delivered k k pid result i hi
Delivered-nil k pid result i hi h = record {
  cleared = λ j low high. absurd (omega arith);
  found = λ w. refl;
  given = λ j m low high. absurd (omega arith);
  untouched = λ j low. refl;
  kept = λ w j e. e;
}

update_waiters_from-Delivered :
    (n i hi : ℕ) (k : Kernel) (pid result : ℕ)
    → i + n ≡ hi
    → ((j : ℕ)
        → i ≤ j
        → j < hi
        → waiter k pid j ≢ 0
        → (m : ℕ) × (get_waiting k (waiter k pid j) pid ≡ some m))
    → (k' : Kernel) × (update_waiters_from n i k pid result ≡ some k')
      × Delivered k k' pid result i hi
unfolding update_waiters_from
update_waiters_from-Delivered zero i hi k pid result e known =
    (k, refl, Delivered-nil k pid result i hi (omega arith))
update_waiters_from-Delivered (suc n) i hi k pid result e known =
    let (k1, one, r) = update_waiter-Round k pid result i (known i (omega arith) (omega arith)) in
    let (k', rest, d) =
      update_waiters_from-Delivered n (i + 1) hi k1 pid result (omega arith) (λ j low high busy.
        let same = later_waiter k k1 pid result i r j (omega arith) in
        let (m, hit) = known j (omega arith) high (λ idle. busy (same ∙ idle)) in
        (m, ap (λ w. get_waiting k1 w pid) same ∙ r.found (waiter k pid j) ∙ hit)) in
    (k', rw (one, update_waiters_from) rest, Delivered-step k k1 k' pid result i hi r d)

-- Every waiter of `pid` has an entry for it.
abbrev pub IsAwaited : Kernel → ℕ → Type 0
IsAwaited k pid =
    (j : ℕ) → j < 5 → waiter k pid j ≢ 0 → (m : ℕ) × (get_waiting k (waiter k pid j) pid ≡ some m)

-- If every waiter of `pid` has an entry for it, `update_waiters` does not fault: each waiter finds
-- the result in its entry for `pid` and is struck from the list, and no process loses or gains an
-- entry for `pid`.
pub update_waiters-Delivered :
    (k : Kernel) (pid result : ℕ)
    → IsAwaited k pid
    → (k' : Kernel) × (update_waiters k pid result ≡ some k') × Delivered k k' pid result 0 5
unfolding update_waiters
update_waiters-Delivered k pid result known =
    update_waiters_from-Delivered 5 0 5 k pid result (omega arith) (λ j low high. known j high)
