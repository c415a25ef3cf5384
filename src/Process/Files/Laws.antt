-- ===== src/Process/Files/Laws.antt =====
-- What a process's table of open files does with an addition and a removal.
use native.Mathlib.Numerals.{add-one}
use assembly_os.Prelude.{
  ℕ, suc, ◌+◌, ◌-◌, ◌≤◌, ◌<◌, ◌≡◌, ◌⊎◌, some, arith, minus_one, ◌==◌, length, set, index_where,
  index_where-found, index_where-prefix, Bool-cases, leb, ◌∙◌, Option-cases, inl, inr, length-set,
  length-memmove, take, drop, ◌++◌, List, [], ◌∷◌, zero, ap,
}
use assembly_os.Process.State.{FdProcTable, Kernel, process}
use assembly_os.Process.Invariant.{IsValid, PcbIsValid, modify-IsValid}
use assembly_os.Process.Files.{
  fds, set_fds, add_process_fd, remove_at, remove_found, remove_process_fd, found_fd, proc_fd_open,
}

fds-IsValid :
    (k : Kernel) (q : ℕ) (t : FdProcTable)
    → ((PcbIsValid q (process k q)) → (length t.opened ≡ 10) × (t.count ≤ 10))
    → IsValid k
    → IsValid (set_fds k q t)
fds-IsValid k q t sized =
    modify-IsValid k q (λ p. record p { fd_table = t }) (λ _ _ v. ground (arith, sized v))

pub add_process_fd-IsValid :
    (k : Kernel) (pid fd : ℕ) → IsValid k → IsValid (add_process_fd k pid fd).0
unfolding add_process_fd
add_process_fd-IsValid k pid fd v = elim (Bool-cases (leb 10 (fds k pid).count)) [
  | inl full ↦ rw full v
  | inr room ↦
      rw room (fds-IsValid k pid _ (λ w. (length-set _ _ _ ∙ w.files_size, ground arith)) v)
]

pub remove_process_fd-IsValid :
    (k : Kernel) (pid fd : ℕ) → IsValid k → IsValid (remove_process_fd k pid fd).0
unfolding remove_process_fd remove_found remove_at
remove_process_fd-IsValid k pid fd v =
    elim (Option-cases (index_where (λ x. x == fd) (fds k pid).count (fds k pid).opened)) [
      | inl missing ↦ rw missing v
      | inr (i, hit) ↦ rw hit (
          fds-IsValid k pid (remove_at (fds k pid) i)
            (λ w.
              removed_size (fds k pid) i w.files_size w.files_count
                (index_where-found (λ x. x == fd) _ _ i 0 hit).0)
            v)
    ]
  where
    removed_size :
        (t : FdProcTable) (i : ℕ)
        → length t.opened ≡ 10
        → t.count ≤ 10
        → i < t.count
        → (length (remove_at t i).opened ≡ 10) × ((remove_at t i).count ≤ 10)
    removed_size t i size small below = (
      length-memmove t.opened (i + 1) i (t.count - 1 - i) (omega arith) (omega arith) ∙ size,
      omega arith,
    )

fds-set_fds : (k : Kernel) (pid : ℕ) (t : FdProcTable) → fds (set_fds k pid t) pid ≡ t
fds-set_fds k pid t = ground arith

proc_fd_open-set_fds :
    (k : Kernel) (pid fd i : ℕ) (t : FdProcTable)
    → index_where (λ x. x == fd) t.count t.opened ≡ some i
    → proc_fd_open (set_fds k pid t) pid fd ≡ 1
unfolding proc_fd_open found_fd
proc_fd_open-set_fds k pid fd i t hit =
    ap (λ (u : FdProcTable). found_fd (index_where (λ x. x == fd) u.count u.opened))
      (fds-set_fds k pid t)
    ∙ ap found_fd hit

-- The entry of an addition is found by the search over the new count.
add_found :
    (xs : List ℕ) (n fd : ℕ)
    → n < length xs
    → (i : ℕ) × (index_where (λ x. x == fd) (suc n) (set xs n fd) ≡ some i)
unfolding index_where
add_found [] n fd h = absurd (omega arith)
add_found (x ∷ xs) zero fd h = (0, ground arith)
add_found (x ∷ xs) (suc n) fd h = elim (Bool-cases (x == fd)) [
  | inl e ↦ (0, rw e)
  | inr e ↦ let (i, hit) = add_found xs n fd (omega arith) in (suc i, rw (e, hit))
]

-- A process's table takes a descriptor while it holds fewer than 10, and the descriptor is open
-- afterwards; a full table refuses it with -1 and does not change.
pub add_process_fd-open :
    (k : Kernel) (pid fd : ℕ)
    → length (fds k pid).opened ≡ 10
    → (((fds k pid).count < 10)
        × ((add_process_fd k pid fd).1 ≡ 0)
        × (proc_fd_open (add_process_fd k pid fd).0 pid fd ≡ 1))
      ⊎ ((10 ≤ (fds k pid).count) × (add_process_fd k pid fd ≡ (k, minus_one)))
unfolding add_process_fd
add_process_fd-open k pid fd size = elim (Bool-cases (leb 10 (fds k pid).count)) [
  | inl full ↦ inr (ground arith, rw full)
  | inr free ↦
      let room : (fds k pid).count < 10 = ground arith in
      let (i, hit) = add_found (fds k pid).opened (fds k pid).count fd (omega (arith, room)) in
      inl (room, rw free, rw free (proc_fd_open-set_fds k pid fd i _ (rw add-one hit)))
]

-- A removed descriptor that was not the last of its table is still open afterwards: the call of
-- `memmove` shifts the table away from the hole instead of over it.
pub removed_still_open :
    (k : Kernel) (pid fd i : ℕ)
    → index_where (λ x. x == fd) (fds k pid).count (fds k pid).opened ≡ some i
    → i + 1 < (fds k pid).count
    → ((remove_process_fd k pid fd).1 ≡ 0)
      × (proc_fd_open (remove_process_fd k pid fd).0 pid fd ≡ 1)
unfolding remove_process_fd remove_found remove_at
removed_still_open k pid fd i e h =
    let still =
      index_where-prefix (λ x. x == fd) (fds k pid).count ((fds k pid).count - 1) (fds k pid).opened
        (take ((fds k pid).count - 1 - i) (drop i (fds k pid).opened)
          ++ drop (i + 1 + ((fds k pid).count - 1 - i)) (fds k pid).opened)
        i e (omega arith) in
    (rw e, rw e (proc_fd_open-set_fds k pid fd i (remove_at (fds k pid) i) still))
