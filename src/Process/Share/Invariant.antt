-- ===== src/Process/Share/Invariant.antt =====
-- The functions of Process/Share keep the table valid.
use assembly_os.Prelude.{ℕ, Option, none, some, arith}
use assembly_os.Process.State.{Shared, Kernel, process, modify}
use assembly_os.Process.Invariant.{IsValid, modify-IsValid}
use assembly_os.Process.Share.{is_shared, share, unshare, lock, lock_at, unlock, unlock_at}

shared-IsValid :
    (k : Kernel) (q : ℕ) (s : Shared)
    → IsValid k
    → IsValid (modify k q (λ p. record p { shared = s }))
shared-IsValid k q s = modify-IsValid k q (λ p. record p { shared = s }) (λ _ _ v. ground arith)

pub share-IsValid : (k : Kernel) (pid ptr : ℕ) → IsValid k → IsValid (share k pid ptr).0
unfolding share
share-IsValid k pid ptr v = ground (
  arith,
  v,
  shared-IsValid k pid (record { ptr = ptr; locked = (process k pid).shared.locked }) v,
)

pub unshare-IsValid : (k : Kernel) (pid ptr : ℕ) → IsValid k → IsValid (unshare k pid ptr).0
unfolding unshare
unshare-IsValid k pid ptr v =
    ground (
      arith,
      v,
      shared-IsValid k pid (record { ptr = 0; locked = (process k pid).shared.locked }) v,
    )

pub lock-IsValid : (k : Kernel) (pid ptr : ℕ) → IsValid k → IsValid (lock k pid ptr).0
unfolding lock
lock-IsValid k pid ptr v = reached (is_shared k pid ptr)
  where
    reached : (o : Option ℕ) → IsValid (lock_at k o).0
    reached none = v
    reached (some owner) = ground (
      arith,
      v,
      shared-IsValid k owner (record { ptr = (process k owner).shared.ptr; locked = 1 }) v,
    )

pub unlock-IsValid : (k : Kernel) (pid ptr : ℕ) → IsValid k → IsValid (unlock k pid ptr).0
unfolding unlock
unlock-IsValid k pid ptr v = reached (is_shared k pid ptr)
  where
    reached : (o : Option ℕ) → IsValid (unlock_at k o).0
    reached none = v
    reached (some owner) = ground (
      arith,
      v,
      shared-IsValid k owner (record { ptr = (process k owner).shared.ptr; locked = 0 }) v,
    )
