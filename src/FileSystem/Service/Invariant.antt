-- ===== src/FileSystem/Service/Invariant.antt =====
-- Every file call keeps the process table valid, so the whole kernel does.
use assembly_os.Prelude.{ℕ, is_error, Bool-cases, inl, inr, Option, none, some, List, subst}
use assembly_os.Prelude.{codes}
use assembly_os.Fs.Descriptors.{close_file}
use assembly_os.Process.State.{Kernel}
use assembly_os.Process.Invariant.{IsValid}
use assembly_os.Fs.State.{Directory}
use assembly_os.Handler.{Call, handler_rst}
use assembly_os.Handler.Invariant.{KeepsValid, Reach, reachable-IsValid}
use assembly_os.FileSystem.{System, Machine, Session, failed}
use assembly_os.FileSystem.Mounting.{
  init_disk_globals, open_here, open_io_devices, mount_new, mount_old, sys_mount, sys_unmount,
  sys_open, sys_close_here,
}
use assembly_os.FileSystem.Streams.{write_device, read_device, sys_write, sys_read}
use assembly_os.FileSystem.Naming.{
  append, append_listing, reread_root, checked_parent, make_in, sys_ls, sys_stat, sys_mkdir,
  sys_rmdir, sys_rm,
}
use assembly_os.FileSystem.Service.{UserStores, outcome, file_action, kernel_calls}
use assembly_os.FileSystem.Service.Keeps.{Valid?, Keeps, keeps_rules, sys_close-IsValid}

abbrev Returned? : {F : Type 0} → Option (Kernel × F × ℕ) → Type 0
Returned? none = Unit {0}
Returned? (some (k, f, r)) = IsValid k

outcome-Returned? : {D U : Type 0} (o : Option (ℕ × Session D U)) → Valid? o → Returned? (outcome o)
outcome-Returned? none v = v
outcome-Returned? (some (r, (k, f))) v = v

module _ {D U : Type 0} (m : Machine D U) where
  init_disk_globals-Keeps : Keeps (init_disk_globals m)
  unfolding init_disk_globals
  init_disk_globals-Keeps = search keeps_rules

  open_here-Keeps : (path : List ℕ) (flags : ℕ) → Keeps (open_here m path flags)
  unfolding open_here
  open_here-Keeps path flags = search keeps_rules

  open_io_devices-Keeps : Keeps (open_io_devices m)
  unfolding open_io_devices
  open_io_devices-Keeps = search (keeps_rules, open_here-Keeps) depth 9

  mount_new-Keeps : Keeps (mount_new m)
  unfolding mount_new
  mount_new-Keeps = search keeps_rules

  mount_old-Keeps : Keeps (mount_old m)
  unfolding mount_old
  mount_old-Keeps = search keeps_rules

  sys_mount-Keeps : Keeps (sys_mount m)
  unfolding sys_mount
  sys_mount-Keeps =
      search
        (
          keeps_rules, init_disk_globals-Keeps, open_io_devices-Keeps, mount_new-Keeps,
          mount_old-Keeps,
        )
        depth 12

  sys_unmount-Keeps : Keeps (sys_unmount m)
  unfolding sys_unmount
  sys_unmount-Keeps = search keeps_rules depth 12

  sys_open-Keeps : (pointer flags : ℕ) → Keeps (sys_open m pointer flags)
  unfolding sys_open
  sys_open-Keeps pointer flags = search (keeps_rules, open_here-Keeps) depth 12

  failed-Keeps : (msg : List ℕ) → Keeps (failed m msg)
  failed-Keeps msg = search keeps_rules

  sys_close_here-Keeps : (fd : ℕ) → Keeps (sys_close_here m fd)
  unfolding sys_close_here
  sys_close_here-Keeps fd = record {
    at = λ k f v. elim (Bool-cases (is_error (close_file f.open_files fd).1)) [
      | inl refused ↦
          rw (sys_close_here, refused)
            ((failed-Keeps (codes "Failed to close file\n")).at _ _
              (sys_close-IsValid fd k f.open_files v))
      | inr closed ↦ rw (sys_close_here, closed) (sys_close-IsValid fd k f.open_files v)
    ];
  }

  write_device-Keeps : (fd x n : ℕ) → Keeps (write_device m fd x n)
  unfolding write_device
  write_device-Keeps fd x n = search keeps_rules depth 12

  read_device-Keeps : (fd x n : ℕ) → Keeps (read_device m fd x n)
  unfolding read_device
  read_device-Keeps fd x n = search keeps_rules depth 12

  sys_write-Keeps : (fd x n : ℕ) → Keeps (sys_write m fd x n)
  unfolding sys_write
  sys_write-Keeps fd x n = search (keeps_rules, write_device-Keeps) depth 14

  sys_read-Keeps : (fd x n : ℕ) → Keeps (sys_read m fd x n)
  unfolding sys_read
  sys_read-Keeps fd x n = search (keeps_rules, read_device-Keeps) depth 14

  append-Keeps : (pointer : ℕ) (cs : List ℕ) → Keeps (append m pointer cs)
  unfolding append
  append-Keeps pointer cs = search keeps_rules

  append_listing-Keeps : (pointer : ℕ) (cs : Option (List ℕ)) → Keeps (append_listing m pointer cs)
  unfolding append_listing
  append_listing-Keeps pointer none = search keeps_rules
  append_listing-Keeps pointer (some cs) = search (keeps_rules, append-Keeps)

  sys_ls-Keeps : (pointer file_list : ℕ) → Keeps (sys_ls m pointer file_list)
  unfolding sys_ls
  sys_ls-Keeps pointer file_list = search (keeps_rules, append_listing-Keeps) depth 14

  sys_stat-Keeps : (pointer file_info : ℕ) → Keeps (sys_stat m pointer file_info)
  unfolding sys_stat
  sys_stat-Keeps pointer file_info = search keeps_rules depth 12

  reread_root-Keeps : Keeps (reread_root m)
  unfolding reread_root
  reread_root-Keeps = search keeps_rules depth 12

  checked_parent-Keeps : (root : Directory) (path : List ℕ) → Keeps (checked_parent m root path)
  unfolding checked_parent
  checked_parent-Keeps root path = search keeps_rules depth 12

  make_in-Keeps : (filename : List ℕ) (o : Option Directory) → Keeps (make_in m filename o)
  unfolding make_in
  make_in-Keeps filename none = search keeps_rules
  make_in-Keeps filename (some dir) = search (keeps_rules, reread_root-Keeps)

  sys_mkdir-Keeps : (pointer : ℕ) → Keeps (sys_mkdir m pointer)
  unfolding sys_mkdir
  sys_mkdir-Keeps pointer = search (keeps_rules, checked_parent-Keeps, make_in-Keeps) depth 12

  sys_rmdir-Keeps : (pointer : ℕ) → Keeps (sys_rmdir m pointer)
  unfolding sys_rmdir
  sys_rmdir-Keeps pointer = search keeps_rules depth 18

  sys_rm-Keeps : (pointer : ℕ) → Keeps (sys_rm m pointer)
  unfolding sys_rm
  sys_rm-Keeps pointer = search (keeps_rules, reread_root-Keeps) depth 22

  file_action-Keeps : (call : Call) (a b c : ℕ) → Keeps (file_action m call a b c)
  unfolding file_action
  file_action-Keeps Call.write a b c = sys_write-Keeps a b c
  file_action-Keeps Call.read a b c = sys_read-Keeps a b c
  file_action-Keeps Call.opens a b c = sys_open-Keeps a b
  file_action-Keeps Call.close a b c = sys_close_here-Keeps a
  file_action-Keeps Call.mount a b c = sys_mount-Keeps
  file_action-Keeps Call.unmount a b c = sys_unmount-Keeps
  file_action-Keeps Call.ls a b c = sys_ls-Keeps a b
  file_action-Keeps Call.stat a b c = sys_stat-Keeps a b
  file_action-Keeps Call.mkdir a b c = sys_mkdir-Keeps a
  file_action-Keeps Call.rmdir a b c = sys_rmdir-Keeps a
  file_action-Keeps Call.rm a b c = sys_rm-Keeps a
  file_action-Keeps other a b c = search keeps_rules

  -- No file call, whatever its arguments and whatever the disk, the ports and the user's memory hold,
  -- makes the process table invalid: those that return leave a valid table valid.
  pub kernel_calls-KeepsValid : KeepsValid (kernel_calls m)
  kernel_calls-KeepsValid call a b c k f v k' f' r e = subst Returned? e (
      outcome-Returned? (file_action m call a b c (k, f)) ((file_action-Keeps call a b c).at k f v))

  -- Whatever the memory, the disk and the ports held before reset, every state that the kernel reaches
  -- has a valid process table. It reaches them through user code, which may change the context and
  -- the user's memory in any way between two calls, through interrupts, and through all its system
  -- calls, those on files included, as long as no call writes to a slot outside the array. Valid is: each slot from 1 to 30 carries its own pid, the arrays keep their sizes, process
  -- types are 0 or 1, slices at most 6 ticks, file counts at most 10, and the current process is one
  -- of the thirty.
  pub kernel_reachable-IsValid :
      (k : Kernel) (main_console : ℕ) (f : System D U) (t : Session D U)
      → Reach (kernel_calls m) kernel_calls-KeepsValid UserStores (handler_rst k main_console, f) t
      → IsValid t.0
  kernel_reachable-IsValid k main_console f t r =
      reachable-IsValid (kernel_calls m) kernel_calls-KeepsValid UserStores k main_console f t r
