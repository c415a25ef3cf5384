-- ===== src/Tests/Machine.antt =====
-- The theorems on whole runs at a concrete run: a tick of the timer, stores of user
-- code, then a close of a file that is not open.
use assembly_os.Prelude.{refl, minus_one, index_where, codes, [], ◌%◌}
use assembly_os.Process.State.{process}
use assembly_os.Serial.{putc}
use assembly_os.Utilities.{error}
use assembly_os.Process.Invariant.{IsValid}
use assembly_os.Handler.{handler_rst, handler_irq, handler_svc}
use assembly_os.Handler.Invariant.{Reach, Step}
use assembly_os.FileSystem.{Session}
use assembly_os.FileSystem.Mounting.{sys_close_here}
use assembly_os.Fs.Descriptors.{close_file, fdid_to_fd, sys_close}
use assembly_os.Handler.{decode}
use assembly_os.Calls.{return_value}
use assembly_os.FileSystem.Service.{UserStores, file_action, kernel_calls}
use assembly_os.FileSystem.Service.Invariant.{kernel_calls-KeepsValid, kernel_reachable-IsValid}
use assembly_os.Tests.World.{world}
use assembly_os.Tests.Ram.{Blocks, Queues, machine, system, push}

abbrev booted : Session Blocks Queues
booted = (handler_rst (world 0) 4096, system)

abbrev ticked : Session Blocks Queues
ticked = (handler_irq (booted.0) 36, system)

-- Another context and other bytes of memory.
abbrev stored : Session Blocks Queues
stored = (
  record (ticked.0) { frame = (process (ticked.0) 2).ctx },
  record system { memory = λ a. a % 256 },
)

abbrev closed : Session Blocks Queues
closed = (
  return_value (stored.0) minus_one,
  record (stored.1) { uart1 = (push (codes "Failed to close file\n") [], []) },
)

run : Reach (kernel_calls machine) (kernel_calls-KeepsValid machine) UserStores booted closed
unfolding handler_svc decode file_action sys_close_here sys_close close_file fdid_to_fd index_where
    error putc
run =
    Reach.next
      (Reach.next (Reach.next Reach.here (Step.interrupt 36 refl)) (
        Step.user ((process (ticked.0) 2).ctx) (stored.1)
          (record { memory = λ a. a % 256; only_memory = refl }) refl))
      (Step.call 21 refl (λ q outside. refl))

kernel_reachable-IsValid_example : IsValid (closed.0)
kernel_reachable-IsValid_example = kernel_reachable-IsValid machine (world 0) 4096 system closed run
