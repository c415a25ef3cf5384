-- ===== src/Process/Table/Laws.antt =====
-- `free_pid`, `init_pcbs` and `set_current` against what they are for.
use assembly_os.Prelude.{
  ℕ, zero, suc, ◌+◌, ◌≤◌, ◌<◌, ◌≡◌, ◌≢◌, ◌⊎◌, inl, inr, refl, Bool, true, false, arith, minus_one,
  Bool-cases,
}
use assembly_os.Process.State.{Kernel, process}
use assembly_os.Process.Invariant.{IsValid, running-pid}
use assembly_os.Process.Table.{
  active_process, free_pid_from, free_pid, set_current, load_ctx, save_ctx,
}

-- The first pid of a range, or a later one.
from_first :
    (P : ℕ → Bool) (next q : ℕ)
    → P next ≡ true
    → (next + 1 ≤ q → P q ≡ true)
    → next ≤ q
    → P q ≡ true
from_first P next q first rest low = ground arith

free_pid_from_lem :
    (n next : ℕ) (k : Kernel)
    → ((free_pid_from n next k ≡ minus_one)
        × ((q : ℕ) → next ≤ q → q < next + n → active_process k q ≡ true))
      ⊎ ((next ≤ free_pid_from n next k)
          × (free_pid_from n next k < next + n)
          × (active_process k (free_pid_from n next k) ≡ false)
          × ((q : ℕ) → next ≤ q → q < free_pid_from n next k → active_process k q ≡ true))
unfolding free_pid_from
free_pid_from_lem zero next k = inl (refl, λ q low high. absurd (omega arith))
free_pid_from_lem (suc n) next k = elim (Bool-cases (active_process k next)) [
  | inr idle ↦ rw idle (inr (omega arith, omega arith, idle, λ q low high. absurd (omega arith)))
  | inl busy ↦ rw busy (elim (free_pid_from_lem n (next + 1) k) [
    | inl (e, all) ↦ inl (
      e,
      λ q low high. from_first (active_process k) next q busy (λ l. all q l (omega arith)) low,
    )
    | inr (l, h, idle, all) ↦ inr (
      omega arith,
      omega arith,
      idle,
      λ q low high. from_first (active_process k) next q busy (λ m. all q m high) low,
    )
  ])
]

-- `free_pid` returns -1 exactly if all thirty slots are active; otherwise the lowest pid whose
-- slot is not.
pub free_pid_lem :
    (k : Kernel)
    → ((free_pid k ≡ minus_one) × ((q : ℕ) → 1 ≤ q → q ≤ 30 → active_process k q ≡ true))
      ⊎ ((1 ≤ free_pid k)
          × (free_pid k ≤ 30)
          × (active_process k (free_pid k) ≡ false)
          × ((q : ℕ) → 1 ≤ q → q < free_pid k → active_process k q ≡ true))
unfolding free_pid
free_pid_lem k = elim (free_pid_from_lem 30 1 k) [
  | inl (e, all) ↦ inl (e, λ q low high. all q low (omega arith))
  | inr (l, h, idle, all) ↦ inr (l, omega arith, idle, all)
]

-- A switch to another process saves the interrupted context in the slot of the process that was
-- current, loads that of the new one, and changes nothing else.
pub set_current_switch :
    (k : Kernel) (pid : ℕ)
    → IsValid k
    → pid ≢ k.current
    → ((set_current k pid).current ≡ pid)
      × ((set_current k pid).frame ≡ (process k pid).ctx)
      × ((process (set_current k pid) k.current).ctx ≡ k.frame)
      × ((q : ℕ) → q ≢ k.current → process (set_current k pid) q ≡ process k q)
unfolding set_current load_ctx save_ctx
set_current_switch k pid v other =
    let named = running-pid k v in (ground arith, ground arith, ground arith, λ q ne. ground arith)

-- Switching away and back restores the interrupted context.
pub set_current_back :
    (k : Kernel) (pid : ℕ)
    → IsValid k
    → pid ≢ k.current
    → (process k pid).pid ≡ pid
    → (set_current (set_current k pid) k.current).frame ≡ k.frame
unfolding set_current load_ctx save_ctx
set_current_back k pid v other named' = let named = running-pid k v in ground arith
