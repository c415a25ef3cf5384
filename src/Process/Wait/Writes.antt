-- ===== src/Process/Wait/Writes.antt =====
-- question/kernel/processes.c: what a write to one table of waiting leaves of the searches and the
-- other entries.
use assembly_os.Prelude.{
  ℕ, zero, suc, ◌<◌, ◌≡◌, refl, ◌==◌, if◌then◌else◌, arith, get_or, set, length,
  index_where-set_same, get_or-set_self, List, [], ◌∷◌,
}
use assembly_os.Process.State.{Waiting, Kernel, process}
use assembly_os.Process.Wait.{get_waiting, entry, set_entry, waiter, set_waiter, no_waiting}

-- A write to the entry keeps every search of the tables if it keeps the entry's pid.
pub get_waiting-set_entry :
    (k : Kernel) (q i w pid : ℕ) (e : Waiting)
    → e.pid ≡ (entry k q i).pid
    → get_waiting (set_entry k q i e) w pid ≡ get_waiting k w pid
unfolding get_waiting
get_waiting-set_entry k q i w pid e same = ground (
  arith,
  index_where-set_same (λ (x : Waiting). x.pid == pid) 20 (process k q).waiting i e no_waiting,
)

pub get_waiting-set_waiter :
    (k : Kernel) (q i v w pid : ℕ) → get_waiting (set_waiter k q i v) w pid ≡ get_waiting k w pid
unfolding get_waiting
get_waiting-set_waiter k q i v w pid = ground arith

get_or-set_zero :
    (xs : List ℕ) (i j : ℕ) → get_or (set xs i 0) j 0 ≡ (if j == i then 0 else get_or xs j 0)
get_or-set_zero [] i j = ground arith
get_or-set_zero (x ∷ xs) zero zero = refl
get_or-set_zero (x ∷ xs) zero (suc j) = ground arith
get_or-set_zero (x ∷ xs) (suc i) zero = ground arith
get_or-set_zero (x ∷ xs) (suc i) (suc j) = ground (arith, get_or-set_zero xs i j)

-- If an entry and the one written over some entry have a result, so has the entry afterwards.
get_or-set_result :
    (xs : List Waiting) (i j r : ℕ) (e : Waiting)
    → e.result ≡ r
    → (get_or xs j no_waiting).result ≡ r
    → (get_or (set xs i e) j no_waiting).result ≡ r
get_or-set_result [] i j r e h old = old
get_or-set_result (x ∷ xs) zero zero r e h old = h
get_or-set_result (x ∷ xs) zero (suc j) r e h old = old
get_or-set_result (x ∷ xs) (suc i) zero r e h old = old
get_or-set_result (x ∷ xs) (suc i) (suc j) r e h old = get_or-set_result xs i j r e h old

pub waiter-set_waiter :
    (k : Kernel) (q i j : ℕ)
    → waiter (set_waiter k q i 0) q j ≡ (if j == i then 0 else waiter k q j)
waiter-set_waiter k q i j = ground (arith, get_or-set_zero (process k q).waiters i j)

pub waiter-set_entry :
    (k : Kernel) (q i w j : ℕ) (e : Waiting) → waiter (set_entry k q i e) w j ≡ waiter k w j
waiter-set_entry k q i w j e = ground arith

pub entry-set_waiter : (k : Kernel) (q i v w j : ℕ) → entry (set_waiter k q i v) w j ≡ entry k w j
entry-set_waiter k q i v w j = ground arith

pub entry-set_entry :
    (k : Kernel) (q i : ℕ) (e : Waiting)
    → i < length (process k q).waiting
    → entry (set_entry k q i e) q i ≡ e
entry-set_entry k q i e h = ground (arith, get_or-set_self (process k q).waiting i e no_waiting h)

pub result-set_entry :
    (k : Kernel) (q i w j r : ℕ) (e : Waiting)
    → e.result ≡ r
    → (entry k w j).result ≡ r
    → (entry (set_entry k q i e) w j).result ≡ r
result-set_entry k q i w j r e h old =
    ground (arith, get_or-set_result (process k q).waiting i j r e h)
