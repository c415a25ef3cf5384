-- ===== src/Process/Wait/Invariant.antt =====
-- The functions of Process/Wait keep the table valid, and where `update_waiters` faults.
use assembly_os.Prelude.{
  ℕ, zero, suc, ◌+◌, ◌≡◌, refl, Option, none, some, arith, same_value, none-ne-some, length-set,
  set, subst, Bool-cases, Option-cases, inl, inr, ◌==◌, ◌>>=◌,
}
use assembly_os.Process.State.{Waiting, Kernel, process}
use assembly_os.Process.Invariant.{IsValid, modify-IsValid}
use assembly_os.Process.Wait.{
  get_waiting, entry, set_entry, waiter, set_waiter, give_result, update_waiter,
  update_waiters_from, update_waiters, set_waiting, fill_waiter, fill_waiting, free_waiter,
}
use assembly_os.Process.Table.{active_process}

pub set_entry-IsValid :
    (k : Kernel) (q i : ℕ) (e : Waiting) → IsValid k → IsValid (set_entry k q i e)
set_entry-IsValid k q i e =
    modify-IsValid k q (λ p. record p { waiting = set p.waiting i e })
      (λ _ _ v. ground (arith, length-set (process k q).waiting i e))

pub set_waiter-IsValid : (k : Kernel) (q i w : ℕ) → IsValid k → IsValid (set_waiter k q i w)
set_waiter-IsValid k q i w =
    modify-IsValid k q (λ p. record p { waiters = set p.waiters i w })
      (λ _ _ v. ground (arith, length-set (process k q).waiters i w))

-- What holds of every write to the two tables holds of the loop.
module _ {ℓ} (P : Kernel → Type ℓ) (pid : ℕ)
    (keep_entry : (k : Kernel) (q i : ℕ) (e : Waiting) → P k → P (set_entry k q i e))
    (keep_waiter : (k : Kernel) (i : ℕ) → P k → P (set_waiter k pid i 0)) where
  update_waiter-keeps :
      (k k' : Kernel) (result i : ℕ) → update_waiter k pid result i ≡ some k' → P k → P k'
  unfolding update_waiter give_result
  update_waiter-keeps k k' result i e p = elim (Bool-cases (waiter k pid i == 0)) [
    | inl idle ↦ subst P (same_value (rw idle refl) e) p
    | inr busy ↦ elim (Option-cases (get_waiting k (waiter k pid i) pid)) [
      | inl missing ↦ absurd (none-ne-some (rw (busy, missing, ◌>>=◌) refl) e)
      | inr (j, hit) ↦
          subst P (same_value (rw (busy, hit, ◌>>=◌) refl) e)
            (keep_waiter (given k (waiter k pid i) j) i (keep_entry k (waiter k pid i) j _ p))
    ]
  ]
    where
      given : Kernel → ℕ → ℕ → Kernel
      given k w j = set_entry k w j (record { pid = (entry k w j).pid; result = result })

  update_waiters_from-keeps :
      (n i : ℕ) (k k' : Kernel) (result : ℕ)
      → update_waiters_from n i k pid result ≡ some k'
      → P k
      → P k'
  unfolding update_waiters_from
  update_waiters_from-keeps zero i k k' result e p = subst P (same_value refl e) p
  update_waiters_from-keeps (suc n) i k k' result e p =
      elim (Option-cases (update_waiter k pid result i)) [
        | inl fault ↦ absurd (none-ne-some (rw (fault, update_waiters_from) refl) e)
        | inr (k1, one) ↦
            update_waiters_from-keeps n (i + 1) k1 k' result (rw (one, update_waiters_from) at e)
              (update_waiter-keeps k k1 result i one p)
      ]

  pub update_waiters-keeps :
      (k k' : Kernel) (result : ℕ) → update_waiters k pid result ≡ some k' → P k → P k'
  unfolding update_waiters
  update_waiters-keeps k k' result = update_waiters_from-keeps 5 0 k k' result

pub update_waiters-IsValid :
    (k k' : Kernel) (pid result : ℕ)
    → update_waiters k pid result ≡ some k'
    → IsValid k
    → IsValid k'
update_waiters-IsValid k k' pid =
    update_waiters-keeps IsValid pid set_entry-IsValid (λ k1 i. set_waiter-IsValid k1 pid i 0) k k'

fill_waiting-IsValid :
    (k : Kernel) (pid waiting_pid : ℕ) (slot : Option ℕ)
    → IsValid k
    → IsValid (fill_waiting k pid waiting_pid slot).0
unfolding fill_waiting
fill_waiting-IsValid k pid waiting_pid none v = v
fill_waiting-IsValid k pid waiting_pid (some i) v = set_entry-IsValid k pid i _ v

fill_waiter-IsValid :
    (k : Kernel) (pid waiting_pid : ℕ) (slot : Option ℕ)
    → IsValid k
    → IsValid (fill_waiter k pid waiting_pid slot).0
unfolding fill_waiter
fill_waiter-IsValid k pid waiting_pid none v = v
fill_waiter-IsValid k pid waiting_pid (some i) v =
    fill_waiting-IsValid _ pid waiting_pid _ (set_waiter-IsValid k waiting_pid i pid v)

pub set_waiting-IsValid :
    (k : Kernel) (pid waiting_pid : ℕ) → IsValid k → IsValid (set_waiting k pid waiting_pid).0
unfolding set_waiting
set_waiting-IsValid k pid waiting_pid v = elim (Bool-cases (active_process k waiting_pid)) [
  | inl live ↦ rw live (fill_waiter-IsValid k pid waiting_pid (free_waiter k waiting_pid) v)
  | inr dead ↦ rw dead v
]
