-- ===== src/Process/Table/Invariant.antt =====
-- The functions of Process/Table keep the table valid.
use assembly_os.Prelude.{ℕ, zero, suc, ◌+◌, ◌≤◌, ◌<◌, refl, arith}
use assembly_os.Process.State.{Ctx, Kernel, modify, running}
use assembly_os.Process.Invariant.{IsValid, PcbIsValid, modify-IsValid}
use assembly_os.Process.Table.{
  new_process, new_pcb, load_ctx, save_ctx, set_current, reset_priority, init_pcbs_from, init_pcbs,
  init_stack_pointers,
}

new_pcb-IsValid : (k : Kernel) (pid ppid : ℕ) → PcbIsValid pid (new_pcb k pid ppid)
unfolding new_pcb reset_priority
new_pcb-IsValid k pid ppid = record {
  named = refl;
  waiting_size = refl;
  waiters_size = refl;
  typed = omega arith;
  sliced = omega arith;
  files_size = refl;
  files_count = omega arith;
}

pub new_process-IsValid : (k : Kernel) (pid ppid : ℕ) → IsValid k → IsValid (new_process k pid ppid)
unfolding new_process
new_process-IsValid k pid ppid v =
    modify-IsValid k pid (λ _. new_pcb k pid ppid) (λ _ _ _. new_pcb-IsValid k pid ppid) v

-- A new frame leaves the table as it is.
pub frame-IsValid : (k : Kernel) (c : Ctx) → IsValid k → IsValid (record k { frame = c })
frame-IsValid k c v = record {
  slots = v.slots;
  current_low = v.current_low;
  current_high = v.current_high;
}

pub ctx-IsValid :
    (k : Kernel) (pid : ℕ) (c : Ctx)
    → IsValid k
    → IsValid (modify k pid (λ p. record p { ctx = c }))
ctx-IsValid k pid c v = modify-IsValid k pid (λ p. record p { ctx = c }) (λ _ _ s. ground arith) v

pub load_ctx-IsValid : (k : Kernel) → IsValid k → IsValid (load_ctx k)
unfolding load_ctx
load_ctx-IsValid k v = frame-IsValid k (running k).ctx v

pub set_current-IsValid :
    (k : Kernel) (pid : ℕ) → 1 ≤ pid → pid ≤ 30 → IsValid k → IsValid (set_current k pid)
unfolding set_current save_ctx
set_current-IsValid k pid low high v = ground (arith, v, switched)
  where
    saved : IsValid (save_ctx k)
    saved = ctx-IsValid k k.current k.frame v

    switched : IsValid (load_ctx (record (save_ctx k) { current = pid }))
    switched =
        load_ctx-IsValid (record (save_ctx k) { current = pid })
          (record { slots = saved.slots; current_low = low; current_high = high })

init_pcbs_from-slots :
    (n next : ℕ) (k : Kernel)
    → ((q : ℕ) → 1 ≤ q → q < next → PcbIsValid q (k.procs q))
    → (q : ℕ) → 1 ≤ q
    → q < next + n
    → PcbIsValid q ((init_pcbs_from n next k).procs q)
unfolding init_pcbs_from new_process
init_pcbs_from-slots zero next k done q low high = done q low (omega arith)
init_pcbs_from-slots (suc n) next k done q low high =
    init_pcbs_from-slots n (next + 1) (new_process k next 0)
      (λ p l h. ground (arith, done p l, new_pcb-IsValid k next 0)) q low (omega arith)

-- Whatever the memory held, the table is valid once it is initialised and a process chosen.
pub init_pcbs-IsValid :
    (k : Kernel) (pid : ℕ) → 1 ≤ pid → pid ≤ 30 → IsValid (record (init_pcbs k) { current = pid })
unfolding init_pcbs
init_pcbs-IsValid k pid low high = record {
  slots = λ q l h.
      init_pcbs_from-slots 30 1 (init_stack_pointers k) (λ p m n. absurd (omega arith)) q l
        (omega arith);
  current_low = low;
  current_high = high;
}
