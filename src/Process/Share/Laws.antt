-- ===== src/Process/Share/Laws.antt =====
-- Locks exclude one another; which objects a process reaches.
use assembly_os.Prelude.{ℕ, ◌≡◌, ◌≢◌, refl, some, arith, Option-cases, inl, inr, ◌∙◌}
use assembly_os.Process.State.{Kernel, process, modify}
use assembly_os.Process.Share.{is_shared, set_locked, lock, lock_at, unlock, unlock_at}

-- Writing a lock does not change what pointers reach.
is_shared-set_locked :
    (k : Kernel) (owner v pid ptr : ℕ)
    → is_shared (modify k owner (set_locked v)) pid ptr ≡ is_shared k pid ptr
unfolding is_shared
is_shared-set_locked k owner v pid ptr = ground arith

-- A successful lock was free, and is taken now.
lock_success :
    (k : Kernel) (pid ptr : ℕ)
    → (lock k pid ptr).1 ≡ 1
    → (owner : ℕ) × (is_shared k pid ptr ≡ some owner)
      × (lock k pid ptr ≡ (modify k owner (set_locked 1), 1))
      × ((process k owner).shared.locked ≡ 0)
unfolding lock lock_at
lock_success k pid ptr taken = elim (Option-cases (is_shared k pid ptr)) [
  | inl e ↦ absurd (ground arith)
  | inr (owner, e) ↦ (owner, e, ground arith, ground arith)
]

pub lock-locked :
    (k : Kernel) (pid ptr owner : ℕ)
    → is_shared k pid ptr ≡ some owner
    → (process k owner).shared.locked ≢ 0
    → lock k pid ptr ≡ (k, 0)
unfolding lock lock_at
lock-locked k pid ptr owner e held = ground arith

-- Once a process has taken a lock, every process that reaches the same object is refused, itself
-- included, and the state does not change.
pub lock_excludes :
    (k : Kernel) (p q ptr : ℕ)
    → (lock k p ptr).1 ≡ 1
    → is_shared k q ptr ≡ is_shared k p ptr
    → lock (lock k p ptr).0 q ptr ≡ ((lock k p ptr).0, 0)
lock_excludes k p q ptr taken same =
    let (owner, e, f, free) = lock_success k p ptr taken in
    rw f (
      lock-locked (modify k owner (set_locked 1)) q ptr owner
        (is_shared-set_locked k owner 1 q ptr ∙ same ∙ e) (ground arith))

unlock-locked :
    (k : Kernel) (pid ptr owner : ℕ)
    → is_shared k pid ptr ≡ some owner
    → (process k owner).shared.locked ≢ 0
    → unlock k pid ptr ≡ (modify k owner (set_locked 0), 1)
unfolding unlock unlock_at
unlock-locked k pid ptr owner e held = ground arith

unlock-free :
    (k : Kernel) (pid ptr owner : ℕ)
    → is_shared k pid ptr ≡ some owner
    → (process k owner).shared.locked ≡ 0
    → unlock k pid ptr ≡ (k, 0)
unfolding unlock unlock_at
unlock-free k pid ptr owner e free = ground arith

-- An unlock by any process that reaches the object then succeeds once, and leaves every slot as
-- it was before the lock.
pub unlock-lock :
    (k : Kernel) (p q ptr : ℕ)
    → (lock k p ptr).1 ≡ 1
    → is_shared k q ptr ≡ is_shared k p ptr
    → let (k', r) = unlock (lock k p ptr).0 q ptr in
      (r ≡ 1) × ((s : ℕ) → process k' s ≡ process k s) × ((unlock k' q ptr).1 ≡ 0)
unlock-lock k p q ptr taken same =
    let (owner, e, f, free) = lock_success k p ptr taken in
    let locked = modify k owner (set_locked 1) in
    let reached = is_shared-set_locked k owner 1 q ptr ∙ same ∙ e in
    rw (f, unlock-locked locked q ptr owner reached (ground arith))
      (
        refl,
        λ s. ground arith,
        rw
            (unlock-free (modify locked owner (set_locked 0)) q ptr owner
              (is_shared-set_locked locked owner 0 q ptr ∙ reached) (ground arith))
            refl,
      )
