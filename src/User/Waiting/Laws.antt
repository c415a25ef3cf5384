-- ===== src/User/Waiting/Laws.antt =====
-- question/user/lib/libc.c against question/kernel: when the waiting loops end, and with what.
use assembly_os.Prelude.{
  ℕ, zero, suc, ◌≤◌, ◌<◌, ◌≡◌, ◌≢◌, refl, ◌∙◌, ap, sym, some, ◌==◌, if◌then◌else◌, minus_one,
  minus_two, arith, false, inl, inr, Bool-cases, same_value,
}
use assembly_os.Process.State.{Kernel, process, modify}
use assembly_os.Process.Invariant.{IsValid}
use assembly_os.Process.Share.{is_shared, lock, set_locked}
use assembly_os.Process.Share.Laws.{lock-locked}
use assembly_os.Calls.{sys_exit, sys_wait}
use assembly_os.Process.Wait.Laws.{IsAwaited}
use assembly_os.Process.Wait.Registration.{IsWaiting}
use assembly_os.Calls.Waitpid.{wait-exit}
use assembly_os.User.Waiting.{at_attempt, lockm_from, lockm, waitp_from, waitp}

module _ {S : Type 0} (attempt : S → S × ℕ) (meanwhile : ℕ → S → S) where
  lockm_again :
      (n i : ℕ) (s : S)
      → (attempt s).1 ≡ 0
      → lockm_from attempt meanwhile (suc n) i s
        ≡ lockm_from attempt meanwhile n (suc i) (meanwhile i (attempt s).0)
  unfolding lockm_from
  lockm_again n i s e = rw e refl

  lockm_stop :
      (n i : ℕ) (s : S)
      → (attempt s).1 == 0 ≡ false
      → lockm_from attempt meanwhile (suc n) i s ≡ some (attempt s)
  unfolding lockm_from
  lockm_stop n i s e = rw e refl

  -- The loop ends at the first attempt that is answered, if one is.
  lockm_from-answered :
      (n i : ℕ) (s : S)
      → (attempt (at_attempt attempt meanwhile n i s)).1 ≢ 0
      → (m : ℕ) × (m ≤ n)
        × (lockm_from attempt meanwhile (suc n) i s
            ≡ some (attempt (at_attempt attempt meanwhile m i s)))
        × ((attempt (at_attempt attempt meanwhile m i s)).1 ≢ 0)
  unfolding at_attempt
  lockm_from-answered zero i s h = (0, omega arith, lockm_stop 0 i s (ground arith), h)
  lockm_from-answered (suc n) i s h = elim (Bool-cases ((attempt s).1 == 0)) [
    | inr taken ↦ (0, omega arith, lockm_stop (suc n) i s taken, ground arith)
    | inl refused ↦
        let (m, below, e, answer) = lockm_from-answered n (suc i) (meanwhile i (attempt s).0) h in
        (suc m, omega arith, lockm_again (suc n) i s (ground arith) ∙ e, answer)
  ]

  waitp_again :
      (n i : ℕ) (s : S)
      → (attempt s).1 ≡ minus_one
      → waitp_from attempt meanwhile (suc n) i s
        ≡ waitp_from attempt meanwhile n (suc i) (meanwhile i (attempt s).0)
  unfolding waitp_from
  waitp_again n i s e = rw e refl

  waitp_stop :
      (n i : ℕ) (s : S) (r : ℕ)
      → (attempt s).1 ≡ r
      → r ≢ minus_one
      → waitp_from attempt meanwhile (suc n) i s
        ≡ some ((attempt s).0, if r == minus_two then minus_one else r)
  unfolding waitp_from
  waitp_stop n i s r e ne = rw e (ground arith)

  -- After `n` attempts that are told to wait, the answer of the next is the result.
  waitp_from-answered :
      (n i : ℕ) (s : S) (r : ℕ)
      → ((m : ℕ) → m < n → (attempt (at_attempt attempt meanwhile m i s)).1 ≡ minus_one)
      → (attempt (at_attempt attempt meanwhile n i s)).1 ≡ r
      → r ≢ minus_one
      → waitp_from attempt meanwhile (suc n) i s
        ≡ some (
          (attempt (at_attempt attempt meanwhile n i s)).0,
          if r == minus_two then minus_one else r,
        )
  unfolding at_attempt
  waitp_from-answered zero i s r wait e ne = waitp_stop 0 i s r e ne
  waitp_from-answered (suc n) i s r wait e ne =
      waitp_again (suc n) i s (wait 0 (omega arith))
      ∙ waitp_from-answered n (suc i) (meanwhile i (attempt s).0) r
          (λ m h. wait (suc m) (omega arith)) e ne

-- The attempts to lock, and to wait, of the process `pid`.
abbrev pub try_lock : ℕ → ℕ → Kernel → Kernel × ℕ
try_lock pid ptr k = lock k pid ptr

abbrev pub try_wait : ℕ → ℕ → Kernel → Kernel × ℕ
try_wait pid q k = sys_wait k pid q

module _ (meanwhile : ℕ → Kernel → Kernel) where
  lock_free :
      (k : Kernel) (pid ptr owner : ℕ)
      → is_shared k pid ptr ≡ some owner
      → (process k owner).shared.locked ≡ 0
      → lock k pid ptr ≡ (modify k owner (set_locked 1), 1)
  unfolding lock
  lock_free k pid ptr owner e free = rw (e, free) refl

  lock_taken :
      (k : Kernel) (pid ptr owner : ℕ)
      → is_shared k pid ptr ≡ some owner
      → (lock k pid ptr).1 ≢ 0
      → (process k owner).shared.locked ≡ 0
  lock_taken k pid ptr owner e taken = elim (Bool-cases ((process k owner).shared.locked == 0)) [
    | inl free ↦ ground arith
    | inr held ↦
        absurd (taken (ap (λ (r : Kernel × ℕ). r.1) (lock-locked k pid ptr owner e (ground arith))))
  ]

  -- A process that can reach a shared object calls `lockm`, and before the call and after each of
  -- its first `n` yields it still reaches it at the same slot. If the object is unlocked after the
  -- last of these yields, `lockm` returns 1 after at most `n` yields, and in the state that it
  -- leaves the object is locked, which was unlocked just before.
  pub lockm-lock :
      (k : Kernel) (pid ptr owner n : ℕ)
      → ((m : ℕ)
          → m ≤ n
          → is_shared (at_attempt (try_lock pid ptr) meanwhile m 0 k) pid ptr ≡ some owner)
      → (process (at_attempt (try_lock pid ptr) meanwhile n 0 k) owner).shared.locked ≡ 0
      → (m : ℕ) × (m ≤ n)
        × ((process (at_attempt (try_lock pid ptr) meanwhile m 0 k) owner).shared.locked ≡ 0)
        × (lockm (try_lock pid ptr) meanwhile (suc n) k
            ≡ some (modify (at_attempt (try_lock pid ptr) meanwhile m 0 k) owner (set_locked 1), 1))
  unfolding lockm
  lockm-lock k pid ptr owner n known free =
      let (m, below, e, taken) =
        lockm_from-answered (try_lock pid ptr) meanwhile n 0 k
          (answered n (known n (omega arith)) free) in
      let free' = lock_taken (state m) pid ptr owner (known m below) taken in
      (m, below, free', e ∙ ap some (lock_free (state m) pid ptr owner (known m below) free'))
    where
      state : ℕ → Kernel
      state m = at_attempt (try_lock pid ptr) meanwhile m 0 k

      one_is_not_zero : ◌≡◌ {A = ℕ} 1 0 → ⊥
      one_is_not_zero h = omega arith

      answered :
          (m : ℕ)
          → is_shared (state m) pid ptr ≡ some owner
          → (process (state m) owner).shared.locked ≡ 0
          → (lock (state m) pid ptr).1 ≢ 0
      answered m e f z =
          one_is_not_zero
            (sym (ap (λ (r : Kernel × ℕ). r.1) (lock_free (state m) pid ptr owner e f)) ∙ z)

  -- The process table `k` is valid, the running process of `k` is awaited, another process `pid`,
  -- not 0, waits for it, and it leaves with the status `x`, not -1. In the state that this leaves `pid`
  -- runs again after the last of `n` yields of its `waitp`, and before each of them it was told
  -- to wait. Then `waitp` returns `x`, but -1 for the status -2.
  pub waitp-exit :
      (start k : Kernel) (pid i x n : ℕ)
      → IsValid k
      → IsAwaited k k.current
      → IsWaiting k pid k.current i
      → pid ≢ 0
      → pid ≢ k.current
      → x ≢ minus_one
      → sys_exit k x ≡ some (at_attempt (try_wait pid k.current) meanwhile n 0 start)
      → ((m : ℕ)
          → m < n
          → (sys_wait (at_attempt (try_wait pid k.current) meanwhile m 0 start) pid k.current).1
            ≡ minus_one)
      → (k' : Kernel) × (waitp (try_wait pid k.current) meanwhile (suc n) start
          ≡ some (k', if x == minus_two then minus_one else x))
  unfolding waitp
  waitp-exit start k pid i x n v awaited w named other status left wait =
      let (k', e, result) = wait-exit k pid i x v awaited w named other status in
      (
        (sys_wait (at_attempt (try_wait pid k.current) meanwhile n 0 start) pid k.current).0,
        waitp_from-answered (try_wait pid k.current) meanwhile n 0 start x wait
            (ap (λ s. (sys_wait s pid k.current).1) (same_value left e) ∙ result) status,
      )
