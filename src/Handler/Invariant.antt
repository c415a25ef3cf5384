-- ===== src/Handler/Invariant.antt =====
-- The process table stays valid from reset on, whatever interrupts and calls arrive.
use assembly_os.Prelude.{
  ℕ, ◌≡◌, ◌<◌, ◌⊎◌, refl, arith, Option, none, some, ◌>>=◌, subst, sym, Bool-cases, inl, inr, ◌==◌,
  add32,
}
use assembly_os.Process.State.{Ctx, Kernel, process}
use assembly_os.Process.Invariant.{IsValid, modify-IsValid}
use assembly_os.Process.Table.{init_pcbs}
use assembly_os.Process.Table.Invariant.{init_pcbs-IsValid, load_ctx-IsValid, frame-IsValid}
use assembly_os.Process.Share.Invariant.{
  share-IsValid, unshare-IsValid, lock-IsValid, unlock-IsValid,
}
use assembly_os.Scheduler.Switch.{scheduler-IsValid}
use assembly_os.Calls.{
  return_value, sys_exit, sys_kill, sys_exec, sys_share, sys_unshare, sys_lock, sys_unlock,
}
use assembly_os.Calls.Invariant.{
  sys_fork-IsValid, sys_exit-IsValid, sys_kill-IsValid, sys_yield-IsValid, sys_exec-IsValid,
  sys_wait-IsValid, sys_fork_wait-IsValid,
}
use assembly_os.Handler.{
  Call, FileCalls, console_pcb, decode, handler_rst, handler_irq, handler_svc, serve, serve_decoded,
}

pub handler_rst-IsValid : (k : Kernel) (main_console : ℕ) → IsValid (handler_rst k main_console)
unfolding handler_rst
handler_rst-IsValid k main_console = load_ctx-IsValid _ (
    modify-IsValid (record (init_pcbs k) { current = 1 }) 1 (console_pcb main_console)
      (λ _ _ w. ground arith) (init_pcbs-IsValid k 1 (omega arith) (omega arith)))

pub bursts-IsValid : (k : Kernel) (n : ℕ) → IsValid k → IsValid (record k { bursts = n })
bursts-IsValid k n v = record {
  slots = v.slots;
  current_low = v.current_low;
  current_high = v.current_high;
}

pub handler_irq-IsValid : (k : Kernel) (id : ℕ) → IsValid k → IsValid (handler_irq k id)
unfolding handler_irq
handler_irq-IsValid k id v = elim (Bool-cases (id == 36)) [
  | inl timer ↦ rw timer (scheduler-IsValid _ (bursts-IsValid k (add32 k.bursts 1) v))
  | inr other ↦ rw other v
]

return_value-IsValid : (k : Kernel) (r : ℕ) → IsValid k → IsValid (return_value k r)
return_value-IsValid k r v = frame-IsValid k _ v

-- The file calls of an implementation keep the process table valid.
abbrev pub KeepsValid : {F : Type 0} → FileCalls F → Type 0
KeepsValid {F} files =
    (c : Call) (a b d : ℕ) (k : Kernel) (f : F)
    → IsValid k
    → (k' : Kernel) (f' : F) (r : ℕ) → files.file_call c a b d k f ≡ some (k', f', r)
    → IsValid k'

-- The result of a call that may fault.
abbrev Valid? : {F : Type 0} → Option (Kernel × F) → Type 0
Valid? none = Unit {0}
Valid? (some (k, f)) = IsValid k

exited :
    {F : Type 0} (o : Option Kernel) (f : F)
    → ((k' : Kernel) → o ≡ some k' → IsValid k')
    → Valid? (o >>= λ k'. some (k', f))
exited none f h = tt
exited (some k') f h = h k' refl

killed :
    {F : Type 0} (o : Option (Kernel × ℕ)) (f : F)
    → ((k' : Kernel) (r : ℕ) → o ≡ some (k', r) → IsValid k')
    → Valid? (o >>= λ (k', r). some (return_value k' r, f))
killed none f h = tt
killed (some (k', r)) f h = return_value-IsValid k' r (h k' r refl)

filed :
    {F : Type 0} (o : Option (Kernel × F × ℕ))
    → ((k' : Kernel) (f' : F) (r : ℕ) → o ≡ some (k', f', r) → IsValid k')
    → Valid? (o >>= λ (k', f', r). some (return_value k' r, f'))
filed none h = tt
filed (some (k', f', r)) h = return_value-IsValid k' r (h k' f' r refl)

-- No slot outside the array is written.
abbrev pub InTable : Kernel → Kernel → Type 0
InTable k k' = (q : ℕ) → (q ≡ 0) ⊎ (30 < q) → process k' q ≡ process k q

-- `stores` is what user code may write of the state behind the file calls.
module _ {F : Type 0} (files : FileCalls F) (keeps : KeepsValid files)
    (stores : F → F → Type 0) where
  serve-Valid? : (c : Call) (k : Kernel) (f : F) → IsValid k → Valid? (serve files c k f)
  unfolding serve sys_share sys_unshare sys_lock sys_unlock
  serve-Valid? Call.fork k f v = sys_fork-IsValid k v
  serve-Valid? Call.exit k f v =
      exited (sys_exit k (k.frame.gpr 0)) f (λ k' e. sys_exit-IsValid k k' _ e v)
  serve-Valid? Call.kill k f v =
      killed (sys_kill k (k.frame.gpr 0) (k.frame.gpr 1)) f
        (λ k' r e. sys_kill-IsValid k k' _ _ r e v)
  serve-Valid? Call.yield k f v = sys_yield-IsValid k v
  serve-Valid? Call.exec k f v =
      exited (sys_exec k (k.frame.gpr 0) (k.frame.gpr 1) (k.frame.gpr 2)) f
        (λ k' e. sys_exec-IsValid k k' _ _ _ e v)
  serve-Valid? Call.ps k f v = v
  serve-Valid? Call.share k f v = return_value-IsValid _ _ (share-IsValid k _ _ v)
  serve-Valid? Call.unshare k f v = return_value-IsValid _ _ (unshare-IsValid k _ _ v)
  serve-Valid? Call.lock k f v = return_value-IsValid _ _ (lock-IsValid k _ _ v)
  serve-Valid? Call.unlock k f v = return_value-IsValid _ _ (unlock-IsValid k _ _ v)
  serve-Valid? Call.wait k f v = return_value-IsValid _ _ (sys_wait-IsValid k _ _ v)
  serve-Valid? Call.forkwait k f v = sys_fork_wait-IsValid k v
  serve-Valid? c k f v = filed (files.file_call c _ _ _ k f) (keeps c _ _ _ k f v)

  handler_svc-Valid? : (id : ℕ) (k : Kernel) (f : F) → IsValid k → Valid? (handler_svc files id k f)
  unfolding handler_svc serve_decoded
  handler_svc-Valid? id k f v = decoded (decode id)
    where
      decoded : (c : Option Call) → Valid? (serve_decoded files c k f)
      decoded none = v
      decoded (some c) = serve-Valid? c k f v

  -- The machine's steps: user code runs, which changes the processor's state and stores to memory,
  -- an interrupt arrives, or a system call is made and served that does not write outside the array
  -- of the processes.
  pub data Step (s : Kernel × F) (t : Kernel × F) : Type 0 where
    user : (c : Ctx) (f : F) → stores s.1 f → t ≡ (record (s.0) { frame = c }, f) → Step s t
    interrupt : (id : ℕ) → t ≡ (handler_irq s.0 id, s.1) → Step s t
    call : (id : ℕ) → handler_svc files id s.0 s.1 ≡ some t → InTable s.0 t.0 → Step s t

  pub data Reach (s : Kernel × F) : Kernel × F → Type 0 where
    here : Reach s s
    next : {t u : Kernel × F} → Reach s t → Step t u → Reach s u

  Step-IsValid : (s t : Kernel × F) → Step s t → IsValid s.0 → IsValid t.0
  Step-IsValid s t (user c f w e) v =
      subst (λ (r : Kernel × F). IsValid r.0) (sym e) (frame-IsValid s.0 c v)
  Step-IsValid s t (interrupt id e) v =
      subst (λ (r : Kernel × F). IsValid r.0) (sym e) (handler_irq-IsValid s.0 id v)
  Step-IsValid s t (call id e within) v = subst Valid? e (handler_svc-Valid? id s.0 s.1 v)

  Reach-IsValid : {s t : Kernel × F} → IsValid s.0 → Reach s t → IsValid t.0
  Reach-IsValid v here = v
  Reach-IsValid v (next {t} {u} r st) = Step-IsValid t u st (Reach-IsValid v r)

  -- Whatever the memory held before reset, every state that the machine reaches by these steps has
  -- a valid table:
  -- each slot from 1 to 30 carries its own pid, the arrays keep their sizes, process types are 0 or
  -- 1, slices at most 6 ticks, file counts at most 10, and the current process is one of the thirty.
  pub reachable-IsValid :
      (k : Kernel) (main_console : ℕ) (f : F) (t : Kernel × F)
      → Reach (handler_rst k main_console, f) t
      → IsValid t.0
  reachable-IsValid k main_console f t r = Reach-IsValid (handler_rst-IsValid k main_console) r
