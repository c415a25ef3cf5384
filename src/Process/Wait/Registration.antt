-- ===== src/Process/Wait/Registration.antt =====
-- `set_waiting` enters a pair of processes into both tables.
use assembly_os.Prelude.{
  ℕ, ◌<◌, ◌≡◌, refl, arith, true, ◌==◌, ◌∙◌, ap, some, none, minus_one, length, index_where,
  index_where-found, index_where-set_first, get_or, set, get_or-set_self,
}
use assembly_os.Process.State.{Waiting, Kernel, process}
use assembly_os.Process.Table.{active_process}
use assembly_os.Process.Wait.{
  get_waiting, entry, set_entry, waiter, set_waiter, set_waiting, no_waiting, free_waiter,
  free_waiting, fill_waiter, fill_waiting,
}

-- `pid` waits for `q`: it stands among the waiters of `q`, and its own entry for `q` is at `i`.
pub record IsWaiting (k : Kernel) (pid q i : ℕ) : Type 0 where
  pub registered : (j : ℕ) × (j < 5) × (waiter k q j ≡ pid)
  pub recorded : get_waiting k pid q ≡ some i

abbrev new_entry : ℕ → Waiting
new_entry q = record { pid = q; result = minus_one }

abbrev registered_at : Kernel → ℕ → ℕ → ℕ → ℕ → Kernel
registered_at k pid q a b = set_entry (set_waiter k q a pid) pid b (new_entry q)

free_waiting-set_waiter :
    (k : Kernel) (q a w pid : ℕ) → free_waiting (set_waiter k q a w) pid ≡ free_waiting k pid
unfolding free_waiting
free_waiting-set_waiter k q a w pid = ground arith

set_waiting-slots :
    (k : Kernel) (pid q a b : ℕ)
    → active_process k q ≡ true
    → free_waiter k q ≡ some a
    → free_waiting k pid ≡ some b
    → set_waiting k pid q ≡ (registered_at k pid q a b, some b)
unfolding set_waiting fill_waiter fill_waiting
set_waiting-slots k pid q a b live e f =
    rw (live, e) (rw (free_waiting-set_waiter k q a pid pid ∙ f) refl)

waiting-registered :
    (k : Kernel) (pid q a b : ℕ)
    → (process (registered_at k pid q a b) pid).waiting
      ≡ set (process k pid).waiting b (new_entry q)
waiting-registered k pid q a b = ground arith

waiters-registered :
    (k : Kernel) (pid q a b : ℕ)
    → (process (registered_at k pid q a b) q).waiters ≡ set (process k q).waiters a pid
waiters-registered k pid q a b = ground arith

registered-IsWaiting :
    (k : Kernel) (pid q a b : ℕ)
    → free_waiter k q ≡ some a
    → free_waiting k pid ≡ some b
    → get_waiting k pid q ≡ none
    → IsWaiting (registered_at k pid q a b) pid q b
unfolding free_waiter free_waiting get_waiting
registered-IsWaiting k pid q a b e f new =
    let (a_small, a_in, _) = index_where-found (λ w. w == 0) 5 (process k q).waiters a 0 e in
    let (b_small, b_in, _) =
      index_where-found (λ (x : Waiting). x.pid == 0) 20 (process k pid).waiting b no_waiting f in
    record {
      registered = (
        a,
        a_small,
        ap (λ xs. get_or xs a 0) (waiters-registered k pid q a b)
            ∙ get_or-set_self (process k q).waiters a pid 0 a_in,
      );
      recorded =
          ap (index_where (λ (x : Waiting). x.pid == q) 20) (waiting-registered k pid q a b)
          ∙ index_where-set_first (λ (x : Waiting). x.pid == q) 20 (process k pid).waiting b
              (new_entry q) new (ground arith) b_small b_in;
    }

free_waiting-in_range :
    (k : Kernel) (pid b : ℕ) → free_waiting k pid ≡ some b → b < length (process k pid).waiting
unfolding free_waiting
free_waiting-in_range k pid b f =
    (index_where-found (λ (x : Waiting). x.pid == 0) 20 (process k pid).waiting b no_waiting f).1

-- If the awaited process is active and both tables have a free place, `set_waiting` takes the
-- first of each: from then on `pid` waits for `q`, and the result of its entry is -1.
pub set_waiting_lem :
    (k : Kernel) (pid q a b : ℕ)
    → active_process k q ≡ true
    → free_waiter k q ≡ some a
    → free_waiting k pid ≡ some b
    → get_waiting k pid q ≡ none
    → let (k', slot) = set_waiting k pid q in
      (slot ≡ some b)
      × IsWaiting k' pid q b
      × (entry k' pid b ≡ record { pid = q; result = minus_one })
set_waiting_lem k pid q a b live e f new = rw (set_waiting-slots k pid q a b live e f) (
  refl,
  registered-IsWaiting k pid q a b e f new,
  ap (λ xs. get_or xs b no_waiting) (waiting-registered k pid q a b)
      ∙ get_or-set_self (process k pid).waiting b (new_entry q) no_waiting
          (free_waiting-in_range k pid b f),
)
