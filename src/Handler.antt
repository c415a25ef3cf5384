-- ===== src/Handler.antt =====
-- question/kernel/hilevel.c: the handlers of reset, timer interrupt and system call.
-- The writes to the registers of the timer and the interrupt controller are left out: they only
-- configure and acknowledge.
pub mod Invariant
use assembly_os.Prelude.{ℕ, ◌+◌, Bool, Option, none, some, ◌==◌, if◌then◌else◌, ◌>>=◌, add32}
use assembly_os.Process.State.{Ctx, Priority, Pcb, Kernel, interactive, process, modify, running}
use assembly_os.Process.Table.{init_pcbs, load_ctx}
use assembly_os.Scheduler.{scheduler}
use assembly_os.Calls.{
  return_value, sys_fork, sys_exit, sys_kill, sys_yield, sys_exec, sys_share, sys_unshare, sys_lock,
  sys_unlock, sys_wait, sys_fork_wait,
}

-- `init_pcbs`, then the console as process 1; `main_console` is the address of its program.
abbrev pub console_pcb : ℕ → Pcb → Pcb
console_pcb main_console p = record p {
  ctx = record (p.ctx) { pc = main_console };
  priority = record (p.priority) { process_type = interactive };
}

unfoldable pub handler_rst : Kernel → ℕ → Kernel
handler_rst k main_console =
    load_ctx (record (modify (init_pcbs k) 1 (console_pcb main_console)) { current = 1 })

-- GIC_SOURCE_TIMER0 of question/device/GIC.h.
abbrev pub timer_source : ℕ
timer_source = 36

-- `id` is what the interrupt controller's register IAR holds.
unfoldable pub handler_irq : Kernel → ℕ → Kernel
handler_irq k id =
    if id == timer_source then scheduler (record k { bursts = add32 k.bursts 1 }) else k

-- The cases of the `switch`.
pub data Call : Type 0 where
  fork exit kill write read opens close mount unmount yield exec ps : Call
  share unshare lock unlock wait forkwait ls stat mkdir rmdir rm : Call

-- The numbers SYS_YIELD to SYS_RM of system_calls.h.
unfoldable pub decode : ℕ → Option Call
decode id =
    if id == 0x00
    then some yield
    else (if id == 0x01
        then some write
        else (if id == 0x02
            then some read
            else (if id == 0x03
                then some fork
                else (if id == 0x04
                    then some exit
                    else (if id == 0x05
                        then some exec
                        else (if id == 0x06
                            then some kill
                            else (if id == 0x07
                                then some ps
                                else (if id == 0x08
                                    then some share
                                    else (if id == 0x09
                                        then some unshare
                                        else (if id == 0x10
                                            then some lock
                                            else (if id == 0x11
                                                then some unlock
                                                else (if id == 0x12
                                                    then some wait
                                                    else (if id == 0x13
                                                        then some forkwait
                                                        else (if id == 0x14
                                                            then some opens
                                                            else (if id == 0x15
                                                            then some close
                                                            else (if id == 0x16
                                                            then some mount
                                                            else (if id == 0x17
                                                            then some unmount
                                                            else (if id == 0x18
                                                            then some ls
                                                            else (if id == 0x19
                                                            then some stat
                                                            else (if id == 0x20
                                                            then some mkdir
                                                            else (if id == 0x21
                                                            then some rmdir
                                                            else (if id == 0x22
                                                            then some rm
                                                            else none))))))))))))))))))))))

-- The calls of file_system_calls.c, over the kernel and the state `F` of the file system and the
-- user's memory. Each is given the registers r0, r1 and r2 and returns its status; `none` is a wait
-- that never ends or an access outside an array.
pub record FileCalls (F : Type 0) : Type 0 where
  pub file_call : Call → ℕ → ℕ → ℕ → Kernel → F → Option (Kernel × F × ℕ)

module _ {F : Type 0} (files : FileCalls F) where
  -- A file call and the return value that the handler writes for it.
  abbrev file_service : Call → Kernel → F → Option (Kernel × F)
  file_service c k f = do
    (k', f', r) ← files.file_call c (k.frame.gpr 0) (k.frame.gpr 1) (k.frame.gpr 2) k f
    some (return_value k' r, f')

  -- A call that changes the kernel and returns a value.
  abbrev service : Kernel × ℕ → Kernel
  service (k, r) = return_value k r

  -- `none` is also a write through a NULL pointer. `ps` only prints.
  serve : Call → Kernel → F → Option (Kernel × F)
  serve fork k f = some (sys_fork k, f)
  serve exit k f = do k' ← sys_exit k (k.frame.gpr 0); some (k', f)
  serve kill k f = do r ← sys_kill k (k.frame.gpr 0) (k.frame.gpr 1); some (service r, f)
  serve yield k f = some (sys_yield k, f)
  serve exec k f = do k' ← sys_exec k (k.frame.gpr 0) (k.frame.gpr 1) (k.frame.gpr 2); some (k', f)
  serve ps k f = some (k, f)
  serve share k f = some (service (sys_share k (k.frame.gpr 0)), f)
  serve unshare k f = some (service (sys_unshare k (k.frame.gpr 0)), f)
  serve lock k f = some (service (sys_lock k (k.frame.gpr 0)), f)
  serve unlock k f = some (service (sys_unlock k (k.frame.gpr 0)), f)
  serve wait k f = some (service (sys_wait k (running k).pid (k.frame.gpr 0)), f)
  serve forkwait k f = some (sys_fork_wait k, f)
  serve c k f = file_service c k f

  serve_decoded : Option Call → Kernel → F → Option (Kernel × F)
  serve_decoded none k f = some (k, f)
  serve_decoded (some c) k f = serve c k f

  -- An unknown number is reported and changes nothing.
  unfoldable pub handler_svc : ℕ → Kernel → F → Option (Kernel × F)
  unfolding serve_decoded serve
  handler_svc id k f = serve_decoded (decode id) k f
