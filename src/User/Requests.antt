-- ===== src/User/Requests.antt =====
-- question/user/lib/libc.c and libc.h: the functions that make a system call. Each puts its
-- arguments into the registers from r0 on and executes `svc` with the number of its call.
pub mod Laws
use assembly_os.Prelude.{ℕ, ◌+◌, List, [], ◌∷◌, length}
use assembly_os.Process.State.{Ctx, Kernel}
use assembly_os.Calls.{set_gpr}

-- The numbers SYS_YIELD to SYS_RM of libc.h.
abbrev pub sys_yield_number : ℕ
sys_yield_number = 0x00

abbrev pub sys_write_number : ℕ
sys_write_number = 0x01

abbrev pub sys_read_number : ℕ
sys_read_number = 0x02

abbrev pub sys_fork_number : ℕ
sys_fork_number = 0x03

abbrev pub sys_exit_number : ℕ
sys_exit_number = 0x04

abbrev pub sys_exec_number : ℕ
sys_exec_number = 0x05

abbrev pub sys_kill_number : ℕ
sys_kill_number = 0x06

abbrev pub sys_ps_number : ℕ
sys_ps_number = 0x07

abbrev pub sys_share_number : ℕ
sys_share_number = 0x08

abbrev pub sys_unshare_number : ℕ
sys_unshare_number = 0x09

abbrev pub sys_lock_number : ℕ
sys_lock_number = 0x10

abbrev pub sys_unlock_number : ℕ
sys_unlock_number = 0x11

abbrev pub sys_wait_number : ℕ
sys_wait_number = 0x12

abbrev pub sys_forkwait_number : ℕ
sys_forkwait_number = 0x13

abbrev pub sys_open_number : ℕ
sys_open_number = 0x14

abbrev pub sys_close_number : ℕ
sys_close_number = 0x15

abbrev pub sys_mount_number : ℕ
sys_mount_number = 0x16

abbrev pub sys_unmount_number : ℕ
sys_unmount_number = 0x17

abbrev pub sys_ls_number : ℕ
sys_ls_number = 0x18

abbrev pub sys_stat_number : ℕ
sys_stat_number = 0x19

abbrev pub sys_mkdir_number : ℕ
sys_mkdir_number = 0x20

abbrev pub sys_rmdir_number : ℕ
sys_rmdir_number = 0x21

abbrev pub sys_rm_number : ℕ
sys_rm_number = 0x22

-- STDOUT_FILENO and STDERR_FILENO of libc.h.
abbrev pub stdout_fileno : ℕ
stdout_fileno = 2

abbrev pub stderr_fileno : ℕ
stderr_fileno = 1

-- A number and what the registers r0, r1, ... hold.
pub record Request : Type 0 where
  pub number : ℕ
  pub registers : List ℕ

abbrev pub svc : ℕ → List ℕ → Request
svc number registers = record { number = number; registers = registers }

unfoldable pub yield : Request
yield = svc sys_yield_number []

unfoldable pub write : ℕ → ℕ → ℕ → Request
write fd x n = svc sys_write_number (fd ∷ x ∷ n ∷ [])

unfoldable pub opens : ℕ → ℕ → Request
opens path flags = svc sys_open_number (path ∷ flags ∷ [])

unfoldable pub close : ℕ → Request
close fd = svc sys_close_number (fd ∷ [])

unfoldable pub mount : Request
mount = svc sys_mount_number []

unfoldable pub unmount : Request
unmount = svc sys_unmount_number []

unfoldable pub read : ℕ → ℕ → ℕ → Request
read fd x n = svc sys_read_number (fd ∷ x ∷ n ∷ [])

unfoldable pub fork : Request
fork = svc sys_fork_number []

unfoldable pub fork_wait : Request
fork_wait = svc sys_forkwait_number []

unfoldable pub ps : ℕ → Request
ps pid = svc sys_ps_number (pid ∷ [])

unfoldable pub exit : ℕ → Request
exit x = svc sys_exit_number (x ∷ [])

unfoldable pub exec : ℕ → ℕ → ℕ → Request
exec x interactive args = svc sys_exec_number (x ∷ interactive ∷ args ∷ [])

unfoldable pub kill : ℕ → ℕ → Request
kill pid x = svc sys_kill_number (pid ∷ x ∷ [])

unfoldable pub sharem : ℕ → Request
sharem ptr = svc sys_share_number (ptr ∷ [])

unfoldable pub unsharem : ℕ → Request
unsharem ptr = svc sys_unshare_number (ptr ∷ [])

-- `_lockm`.
unfoldable pub try_lockm : ℕ → Request
try_lockm ptr = svc sys_lock_number (ptr ∷ [])

unfoldable pub unlockm : ℕ → Request
unlockm ptr = svc sys_unlock_number (ptr ∷ [])

-- `_waitp`, and `waitpnb`, which only calls it.
unfoldable pub try_waitp : ℕ → Request
try_waitp pid = svc sys_wait_number (pid ∷ [])

unfoldable pub waitpnb : ℕ → Request
waitpnb pid = try_waitp pid

unfoldable pub ls : ℕ → ℕ → Request
ls path file_list = svc sys_ls_number (path ∷ file_list ∷ [])

unfoldable pub stat : ℕ → ℕ → Request
stat path file_info = svc sys_stat_number (path ∷ file_info ∷ [])

unfoldable pub mkdir : ℕ → Request
mkdir path = svc sys_mkdir_number (path ∷ [])

unfoldable pub rmdir : ℕ → Request
rmdir path = svc sys_rmdir_number (path ∷ [])

unfoldable pub rm : ℕ → Request
rm path = svc sys_rm_number (path ∷ [])

-- `msg` is the address of `text`.
unfoldable pub err : ℕ → List ℕ → Request
unfolding write
err msg text = write stderr_fileno msg (length text)

unfoldable pub puts : ℕ → List ℕ → Request
unfolding write
puts msg text = write stdout_fileno msg (length text)

-- The registers as `svc` leaves them for the kernel.
abbrev pub put_registers : ℕ → List ℕ → Ctx → Ctx
put_registers i [] c = c
put_registers i (v ∷ vs) c = put_registers (i + 1) vs (set_gpr c i v)

abbrev pub entered : Request → Kernel → Kernel
entered r k = record k { frame = put_registers 0 (r.registers) (k.frame) }
