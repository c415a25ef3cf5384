-- ===== src/Scheduler/Aging.antt =====
-- `update_waiting` ages every active process but the running one, exactly once.
use assembly_os.Prelude.{
  ℕ, zero, suc, ◌+◌, ◌-◌, ◌%◌, ◌≤◌, ◌<◌, ◌≡◌, ◌≢◌, refl, not, ◌||◌, ◌==◌, if◌then◌else◌, arith, ◌∙◌,
  sym, ap, subst, Bool-cases, inl, inr, ◌⊎◌,
}
use assembly_os.Process.State.{Pcb, Kernel, process, running}
use assembly_os.Process.Table.{active_process}
use assembly_os.Scheduler.{age, age_round, age_rounds, update_waiting, candidate}

-- What one visit makes of the slot `q`.
abbrev pub aged : Kernel → ℕ → Pcb
aged k q =
    if not (active_process k q) || q == (running k).pid then process k q else age (process k q)

record Round (k k' : Kernel) (i : ℕ) : Type 0 where
  visited : process k' (candidate k i) ≡ aged k (candidate k i)
  others : (q : ℕ) → q ≢ candidate k i → process k' q ≡ process k q
  same_current : k'.current ≡ k.current
  same_frame : k'.frame ≡ k.frame
  same_pids : (q : ℕ) → (process k' q).pid ≡ (process k q).pid
  same_active : (q : ℕ) → active_process k' q ≡ active_process k q

age_round-Round : (i : ℕ) (k : Kernel) → Round k (age_round i k) i
unfolding age_round active_process
age_round-Round i k = record {
  visited = ground arith;
  others = λ q ne. ground arith;
  same_current = ground arith;
  same_frame = ground arith;
  same_pids = λ q. ground arith;
  same_active = λ q. ground arith;
}

module _ (k k1 : Kernel) (i : ℕ) (r : Round k k1 i) where
  running-pid-Round : (running k1).pid ≡ (running k).pid
  running-pid-Round = ap (λ c. (process k1 c).pid) r.same_current ∙ r.same_pids k.current

  candidate-Round : (j : ℕ) → candidate k1 j ≡ candidate k j
  candidate-Round j = ap (λ c. (c + j) % 30 + 1) running-pid-Round

  aged-Round : (q : ℕ) → q ≢ candidate k i → aged k1 q ≡ aged k q
  aged-Round q ne =
      let same = r.others q ne in
      let live = r.same_active q in let named = running-pid-Round in rw (live, named, same)

-- Different rounds visit different pids.
candidate-injective : (c i j : ℕ) → i < j → j < 30 → (c + j) % 30 + 1 ≢ (c + i) % 30 + 1
candidate-injective c i j h l = omega arith

record Rounds (k k' : Kernel) (lo hi : ℕ) : Type 0 where
  visited : (j : ℕ) → lo ≤ j → j < hi → process k' (candidate k j) ≡ aged k (candidate k j)
  others : (q : ℕ) → ((j : ℕ) → lo ≤ j → j < hi → q ≢ candidate k j) → process k' q ≡ process k q
  same_current : k'.current ≡ k.current
  same_frame : k'.frame ≡ k.frame

module _ (k k1 k' : Kernel) (i hi : ℕ) (r : Round k k1 i) (rest : Rounds k1 k' (i + 1) hi)
    (in_range : i < hi) (small : hi ≤ 30) where
  visited_first : process k' (candidate k i) ≡ aged k (candidate k i)
  visited_first =
      rest.others (candidate k i) (λ m low high e.
        candidate-injective (running k).pid i m (omega arith) (omega arith)
          (sym (e ∙ candidate-Round k k1 i r m)))
      ∙ r.visited

  visited_later : (j : ℕ) → i < j → j < hi → process k' (candidate k j) ≡ aged k (candidate k j)
  visited_later j low high =
      subst (λ q. process k' q ≡ aged k q) (candidate-Round k k1 i r j)
        (rest.visited j (omega arith) high
          ∙ aged-Round k k1 i r (candidate k1 j) (λ e.
            candidate-injective (running k).pid i j low (omega arith)
              (sym (candidate-Round k k1 i r j) ∙ e)))

  Rounds-cons : Rounds k k' i hi
  Rounds-cons = record {
    visited = λ j low high. elim (Bool-cases (j == i)) [
      | inl here ↦
          subst (λ m. process k' (candidate k m) ≡ aged k (candidate k m))
            (same_number i j (ground arith)) visited_first
      | inr ne ↦ visited_later j (ground arith) high
    ];
    others = λ q ne.
        rest.others q (λ j low high e. ne j (omega arith) high (e ∙ candidate-Round k k1 i r j))
        ∙ r.others q (ne i (omega arith) in_range);
    same_current = rest.same_current ∙ r.same_current;
    same_frame = rest.same_frame ∙ r.same_frame;
  }
    where
      same_number : (a b : ℕ) → b ≡ a → a ≡ b
      same_number a b e = sym e

age_rounds-Rounds :
    (n i hi : ℕ) (k : Kernel) → i + n ≡ hi → hi ≤ 30 → Rounds k (age_rounds n i k) i hi
unfolding age_rounds
age_rounds-Rounds zero i hi k e h = record {
  visited = λ j low high. absurd (omega arith);
  others = λ q ne. refl;
  same_current = refl;
  same_frame = refl;
}
age_rounds-Rounds (suc n) i hi k e h =
    Rounds-cons k (age_round i k) (age_rounds n (i + 1) (age_round i k)) i hi (age_round-Round i k)
      (age_rounds-Rounds n (i + 1) hi (age_round i k) (omega arith) h) (omega arith) h

-- The round that visits `q`.
pub visit : ℕ → ℕ → ℕ
visit c q = (q + 29 + (30 - c % 30)) % 30

pub visit_lem : (c q : ℕ) → 1 ≤ q → q ≤ 30 → ((c + visit c q) % 30 + 1 ≡ q) × (visit c q < 30)
unfolding visit
visit_lem c q low high = omega arith

-- Of the thirty slots, exactly those of the active processes that do not run have waited one round
-- longer, once each; the others, the memory around the array, the current process and the
-- interrupted context are as before.
pub update_waiting_lem :
    (k : Kernel)
    → ((q : ℕ) → 1 ≤ q → q ≤ 30 → process (update_waiting k) q ≡ aged k q)
      × ((q : ℕ) → (q < 1) ⊎ (30 < q) → process (update_waiting k) q ≡ process k q)
      × ((update_waiting k).current ≡ k.current)
      × ((update_waiting k).frame ≡ k.frame)
unfolding update_waiting
update_waiting_lem k =
    let all = age_rounds-Rounds 30 0 30 k (omega arith) (omega arith) in
    (
      λ q low high.
          let (e, below) = visit_lem (running k).pid q low high in
          subst (λ p. process (age_rounds 30 0 k) p ≡ aged k p) e
            (all.visited (visit (running k).pid q) (omega arith) below),
      λ q outside. all.others q (λ j low high e. ground arith),
      all.same_current,
      all.same_frame,
    )
