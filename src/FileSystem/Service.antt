-- ===== src/FileSystem/Service.antt =====
-- question/kernel/hilevel.c and file_system_calls.c: the file calls that the handler serves.
pub mod Keeps
pub mod Invariant
use assembly_os.Prelude.{ℕ, ◌≡◌, Option, none, some}
use assembly_os.Process.State.{Kernel}
use assembly_os.Fs.Volume.{Act, pure}
use assembly_os.Handler.{Call, FileCalls}
use assembly_os.FileSystem.{System, Machine, Session}
use assembly_os.FileSystem.Mounting.{sys_mount, sys_unmount, sys_open, sys_close_here}
use assembly_os.FileSystem.Streams.{sys_write, sys_read}
use assembly_os.FileSystem.Naming.{sys_ls, sys_stat, sys_mkdir, sys_rmdir, sys_rm}

-- What the handler sees of a call's outcome.
abbrev pub outcome : {D U : Type 0} → Option (ℕ × Session D U) → Option (Kernel × System D U × ℕ)
outcome none = none
outcome (some (r, (k, f))) = some (k, f, r)

-- User code stores to the memory that the pointers of the calls reach, and to nothing else here.
pub record UserStores {D U : Type 0} (f g : System D U) : Type 0 where
  pub memory : ℕ → ℕ
  pub only_memory : g ≡ record f { memory = memory }

module _ {D U : Type 0} (m : Machine D U) where
  -- The call with the registers r0, r1 and r2. The handler serves the others itself.
  unfoldable pub file_action : Call → ℕ → ℕ → ℕ → Act (Session D U) ℕ
  file_action Call.write a b c = sys_write m a b c
  file_action Call.read a b c = sys_read m a b c
  file_action Call.opens a b c = sys_open m a b
  file_action Call.close a b c = sys_close_here m a
  file_action Call.mount a b c = sys_mount m
  file_action Call.unmount a b c = sys_unmount m
  file_action Call.ls a b c = sys_ls m a b
  file_action Call.stat a b c = sys_stat m a b
  file_action Call.mkdir a b c = sys_mkdir m a
  file_action Call.rmdir a b c = sys_rmdir m a
  file_action Call.rm a b c = sys_rm m a
  file_action other a b c = pure 0

  abbrev pub kernel_calls : FileCalls (System D U)
  kernel_calls = record { file_call = λ call a b c k f. outcome (file_action call a b c (k, f)) }
