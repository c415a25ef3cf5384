-- ===== src/User/Waiting.antt =====
-- question/user/lib/libc.c: the loops that repeat a system call until it gives an answer. Between
-- two attempts the process yields; what the others do until it runs again is `meanwhile`, given
-- with the number of the yield. `none` is out of fuel, the number of attempts.
pub mod Laws
use assembly_os.Prelude.{
  ℕ, zero, suc, ◌+◌, ◌%◌, Option, none, some, ◌==◌, if◌then◌else◌, minus_one, minus_two, ltb, ◌*◌,
}
use assembly_os.User.Numbers.{is_prime}

module _ {S : Type 0} (attempt : S → S × ℕ) (meanwhile : ℕ → S → S) where
  -- The state at attempt `n`, when the first of them has the number `i`.
  unfoldable pub at_attempt : ℕ → ℕ → S → S
  at_attempt zero i s = s
  at_attempt (suc n) i s = at_attempt n (suc i) (meanwhile i (attempt s).0)

  unfoldable pub lockm_from : ℕ → ℕ → S → Option (S × ℕ)
  lockm_from zero i s = none
  lockm_from (suc n) i s =
      let (s', locked) = attempt s in
      let again = lockm_from n (suc i) (meanwhile i s') in
      if locked == 0 then again else some (s', locked)

  unfoldable pub lockm : ℕ → S → Option (S × ℕ)
  lockm n s = lockm_from n 0 s

  unfoldable pub waitp_from : ℕ → ℕ → S → Option (S × ℕ)
  waitp_from zero i s = none
  waitp_from (suc n) i s =
      let (s', result) = attempt s in
      let again = waitp_from n (suc i) (meanwhile i s') in
      if result == minus_one
      then again
      else some (s', if result == minus_two then minus_one else result)

  unfoldable pub waitp : ℕ → S → Option (S × ℕ)
  waitp n s = waitp_from n 0 s
