-- ===== src/User/Requests/Laws.antt =====
-- question/user/lib/libc.c against question/kernel/hilevel.c: what the kernel makes of a request.
use assembly_os.Prelude.{ℕ, Option, some, ◌>>=◌}
use assembly_os.Process.State.{Kernel, running}
use assembly_os.Calls.{
  return_value, sys_fork, sys_exit, sys_kill, sys_yield, sys_exec, sys_share, sys_unshare, sys_lock,
  sys_unlock, sys_wait, sys_fork_wait,
}
use assembly_os.Handler.{Call, FileCalls}
use assembly_os.User.Requests
use assembly_os.User.Requests.{Request}

-- The functions of the library that make one system call, with their arguments.
pub data Wrapper : Type 0 where
  yield mount unmount fork fork_wait : Wrapper
  write read exec : ℕ → ℕ → ℕ → Wrapper
  opens kill ls stat : ℕ → ℕ → Wrapper
  close ps exit sharem unsharem lockm unlockm waitp mkdir rmdir rm : ℕ → Wrapper

-- What a call of the function asks for.
abbrev pub request : Wrapper → Request
request Wrapper.yield = Requests.yield
request Wrapper.mount = Requests.mount
request Wrapper.unmount = Requests.unmount
request Wrapper.fork = Requests.fork
request Wrapper.fork_wait = Requests.fork_wait
request (Wrapper.write fd x n) = Requests.write fd x n
request (Wrapper.read fd x n) = Requests.read fd x n
request (Wrapper.exec x interactive args) = Requests.exec x interactive args
request (Wrapper.opens path flags) = Requests.opens path flags
request (Wrapper.kill pid x) = Requests.kill pid x
request (Wrapper.ls path file_list) = Requests.ls path file_list
request (Wrapper.stat path file_info) = Requests.stat path file_info
request (Wrapper.close fd) = Requests.close fd
request (Wrapper.ps pid) = Requests.ps pid
request (Wrapper.exit x) = Requests.exit x
request (Wrapper.sharem ptr) = Requests.sharem ptr
request (Wrapper.unsharem ptr) = Requests.unsharem ptr
request (Wrapper.lockm ptr) = Requests.try_lockm ptr
request (Wrapper.unlockm ptr) = Requests.unlockm ptr
request (Wrapper.waitp pid) = Requests.try_waitp pid
request (Wrapper.mkdir path) = Requests.mkdir path
request (Wrapper.rmdir path) = Requests.rmdir path
request (Wrapper.rm path) = Requests.rm path

module _ {F : Type 0} (files : FileCalls F) (k : Kernel) (f : F) where
  -- The new kernel and the value that the caller gets.
  abbrev pub returned : Kernel × ℕ → Option (Kernel × F)
  returned r = some (return_value (r.0) (r.1), f)

  -- A call on files, whose first arguments are given.
  abbrev pub on_files : Call → ℕ → ℕ → ℕ → Option (Kernel × F)
  on_files c r0 r1 r2 = do
    (k', f', r) ← files.file_call c r0 r1 r2 k f
    some (return_value k' r, f')

  -- What the function promises: the operation of its name on its arguments, and its result in r0.
  abbrev pub promised : Wrapper → Option (Kernel × F)
  promised Wrapper.yield = some (sys_yield k, f)
  promised Wrapper.mount = on_files Call.mount (k.frame.gpr 0) (k.frame.gpr 1) (k.frame.gpr 2)
  promised Wrapper.unmount = on_files Call.unmount (k.frame.gpr 0) (k.frame.gpr 1) (k.frame.gpr 2)
  promised Wrapper.fork = some (sys_fork k, f)
  promised Wrapper.fork_wait = some (sys_fork_wait k, f)
  promised (Wrapper.write fd x n) = on_files Call.write fd x n
  promised (Wrapper.read fd x n) = on_files Call.read fd x n
  promised (Wrapper.exec x i args) = do k' ← sys_exec k x i args; some (k', f)
  promised (Wrapper.opens path flags) = on_files Call.opens path flags (k.frame.gpr 2)
  promised (Wrapper.kill pid x) = do r ← sys_kill k pid x; returned r
  promised (Wrapper.ls path file_list) = on_files Call.ls path file_list (k.frame.gpr 2)
  promised (Wrapper.stat path file_info) = on_files Call.stat path file_info (k.frame.gpr 2)
  promised (Wrapper.close fd) = on_files Call.close fd (k.frame.gpr 1) (k.frame.gpr 2)
  promised (Wrapper.ps pid) = some (k, f)
  promised (Wrapper.exit x) = do k' ← sys_exit k x; some (k', f)
  promised (Wrapper.sharem ptr) = returned (sys_share k ptr)
  promised (Wrapper.unsharem ptr) = returned (sys_unshare k ptr)
  promised (Wrapper.lockm ptr) = returned (sys_lock k ptr)
  promised (Wrapper.unlockm ptr) = returned (sys_unlock k ptr)
  promised (Wrapper.waitp pid) = returned (sys_wait k (running k).pid pid)
  promised (Wrapper.mkdir path) = on_files Call.mkdir path (k.frame.gpr 1) (k.frame.gpr 2)
  promised (Wrapper.rmdir path) = on_files Call.rmdir path (k.frame.gpr 1) (k.frame.gpr 2)
  promised (Wrapper.rm path) = on_files Call.rm path (k.frame.gpr 1) (k.frame.gpr 2)
