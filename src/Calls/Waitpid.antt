-- ===== src/Calls/Waitpid.antt =====
-- `sys_wait` of question/kernel/system_calls.c: a wait, the end of the awaited process, and the
-- second wait that collects its status.
use assembly_os.Prelude.{
  ℕ, ◌≡◌, ◌≢◌, refl, arith, true, sym, ◌∙◌, ap, some, none, Option, minus_one,
}
use assembly_os.Process.State.{Waiting, Kernel}
use assembly_os.Process.Invariant.{IsValid}
use assembly_os.Process.Table.{active_process}
use assembly_os.Process.Wait.{get_waiting, entry, set_entry, set_waiting, free_waiter, free_waiting}
use assembly_os.Process.Wait.Laws.{IsAwaited}
use assembly_os.Process.Wait.Registration.{IsWaiting, set_waiting_lem}
use assembly_os.Calls.Exit.{sys_exit_lem}
use assembly_os.Calls.{sys_exit, sys_wait, wait_at, collect, start_waiting}

sys_wait-found :
    (k : Kernel) (pid q i : ℕ) → get_waiting k pid q ≡ some i → sys_wait k pid q ≡ collect k pid i
unfolding sys_wait wait_at
sys_wait-found k pid q i e = rw e refl

-- A wait for which there is an entry polls it: while the result is -1 it returns -1 and changes
-- nothing; any other result is returned and the entry is given back.
pub sys_wait_poll :
    (k : Kernel) (pid q i : ℕ)
    → get_waiting k pid q ≡ some i
    → ((entry k pid i).result ≡ minus_one → sys_wait k pid q ≡ (k, minus_one))
      × ((entry k pid i).result ≢ minus_one
          → sys_wait k pid q
            ≡ (set_entry k pid i (record { pid = 0; result = minus_one }), (entry k pid i).result))
unfolding collect
sys_wait_poll k pid q i e = (
  λ still. rw (sys_wait-found k pid q i e) (ground arith),
  λ done. rw (sys_wait-found k pid q i e) (ground arith),
)

sys_wait-new :
    (k : Kernel) (pid q : ℕ)
    → get_waiting k pid q ≡ none
    → sys_wait k pid q ≡ start_waiting (set_waiting k pid q) pid
unfolding sys_wait wait_at
sys_wait-new k pid q e = rw e refl

start_waiting-fresh :
    (k : Kernel) (o : Option ℕ) (pid b : ℕ)
    → o ≡ some b
    → (entry k pid b).result ≡ minus_one
    → start_waiting (k, o) pid ≡ (k, minus_one)
unfolding start_waiting collect
start_waiting-fresh k o pid b e still = rw e (ground arith)

-- The first wait for an active process, with room in both tables, returns -1 and leaves the caller
-- waiting.
pub sys_wait_starts :
    (k : Kernel) (pid q a b : ℕ)
    → active_process k q ≡ true
    → free_waiter k q ≡ some a
    → free_waiting k pid ≡ some b
    → get_waiting k pid q ≡ none
    → ((sys_wait k pid q).1 ≡ minus_one) × IsWaiting (sys_wait k pid q).0 pid q b
sys_wait_starts k pid q a b live e f new =
    let (slot, waits, fresh) = set_waiting_lem k pid q a b live e f new in
    rw
      (sys_wait-new k pid q new
        ∙ start_waiting-fresh _ _ pid b slot (ap (λ (x : Waiting). x.result) fresh))
      (refl, waits)

-- A process leaves with a status other than -1 while another waits for it: the next wait of that
-- one returns the status.
pub wait-exit :
    (k : Kernel) (pid i x : ℕ)
    → IsValid k
    → IsAwaited k k.current
    → IsWaiting k pid k.current i
    → pid ≢ 0
    → pid ≢ k.current
    → x ≢ minus_one
    → (k' : Kernel) × (sys_exit k x ≡ some k') × ((sys_wait k' pid k.current).1 ≡ x)
wait-exit k pid i x v awaited w named other status =
    let (k', left, l) = sys_exit_lem k x v awaited in
    let (j, below, e) = w.registered in
    let (hit, result) =
      l.told j i below (λ z. named (sym e ∙ z)) (λ z. other (sym e ∙ z))
        (ap (λ r. get_waiting k r k.current) e ∙ w.recorded) in
    let hit' = ap (λ r. get_waiting k' r k.current) (sym e) ∙ hit in
    let result' = ap (λ r. (entry k' r i).result) (sym e) ∙ result in
    (
      k',
      left,
      ap (λ (r : Kernel × ℕ). r.1)
            ((sys_wait_poll k' pid k.current i hit').1 (λ z. status (sym result' ∙ z)))
          ∙ result',
    )
