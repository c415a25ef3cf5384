-- ===== src/FileSystem/Streams.antt =====
-- question/kernel/file_system_calls.c: reading and writing, on the serial ports and in files.
pub mod Laws
use assembly_os.Prelude.{
  ℕ, zero, suc, true, not, Option, none, some, List, [], ◌∷◌, ◌==◌, if◌then◌else◌, slt, add32,
  minus_one, is_error,
}
use assembly_os.Prelude.{codes}
use assembly_os.Process.State.{Kernel, running, modify}
use assembly_os.Fs.State.{inode_file, inode_device, read, write}
use assembly_os.Fs.Volume.{Act, pure, ◌>>=◌, ◌>>◌}
use assembly_os.Fs.Descriptors.{process_has_file_permission}
use assembly_os.Fs.Inodes.{local_inode, fdid_to_inode, read_from_inode, write_to_inode}
use assembly_os.Serial.{putc, getc}
use assembly_os.FileSystem.{
  Machine, Session, get_system, get_kernel, on_kernel, on_volume, on_uart0, on_uart1, failed,
  bytes_from, store_bytes,
}

-- The rounds of `for (i = 0; i < n; i++)`.
abbrev pub signed_rounds : ℕ → ℕ
signed_rounds n = if slt 0 n then n else 0

-- `current->priority.io_burst++`
abbrev pub count_io_burst : Kernel → Kernel × ℕ
count_io_burst k = (
  modify k k.current
      (λ p. record p { priority = record (p.priority) { io_burst = add32 p.priority.io_burst 1 } }),
  0,
)

module _ {D U : Type 0} (m : Machine D U) where
  unfoldable pub put_all : List ℕ → U → Option U
  put_all [] u = some u
  put_all (c ∷ cs) u = elim (putc m.serial u c true) [ none ↦ none | some u' ↦ put_all cs u' ]

  -- The characters up to an escape, which ends the loop.
  unfoldable pub get_all : ℕ → U → Option (List ℕ × U)
  get_all zero u = some ([], u)
  get_all (suc n) u = elim (getc m.serial u true) [
    | none ↦ none
    | some (c, u') ↦
        let rest = get_all n u' in
        if c == 27
        then some (c ∷ [], u')
        else elim rest [ none ↦ none | some (cs, u'') ↦ some (c ∷ cs, u'') ]
  ]

  abbrev pub put : List ℕ → U → Option (Unit {0} × U)
  put cs u = elim (put_all cs u) [ none ↦ none | some u' ↦ some (tt, u') ]

  unfoldable pub write_device : ℕ → ℕ → ℕ → Act (Session D U) ℕ
  write_device fd x n = do
    f ← get_system
    let cs = bytes_from (signed_rounds n) f.memory x
    (if fd == f.stdout_fd
        then (do on_uart0 (put cs); pure n)
        else (if fd == f.stderr_fd
            then (do on_uart1 (put cs); pure n)
            else failed m (codes "Unknown device\n")))

  unfoldable pub read_device : ℕ → ℕ → ℕ → Act (Session D U) ℕ
  read_device fd x n = do
    f ← get_system
    (if fd == f.stdin_fd
        then (do cs ← on_uart1 (get_all (signed_rounds n)); store_bytes x cs; pure n)
        else failed m (codes "Unknown device\n"))

  unfoldable pub sys_write : ℕ → ℕ → ℕ → Act (Session D U) ℕ
  sys_write fd x n = do
    k ← get_kernel
    f ← get_system
    (if is_error (process_has_file_permission k f.open_files (running k).pid fd write)
        then failed m (codes "File not open\n")
        else (do
          old ← on_volume (local_inode m.platform)
          (status, inode) ← on_volume (fdid_to_inode m.platform f.open_files fd old)
          (if is_error status
              then failed m (codes "Failed to open\n")
              else (if inode.type == inode_device
                  then write_device fd x n
                  else (if not (inode.type == inode_file)
                      then failed m (codes "Cannot write to this type of file\n")
                      else (do
                        written ←
                            on_volume
                              (write_to_inode m.platform inode 0 (bytes_from n f.memory x) n)
                        (if is_error written
                            then failed m (codes "Failed to write\n")
                            else pure n)))))))

  -- What a failed read has put into the user's memory stays there.
  unfoldable pub sys_read : ℕ → ℕ → ℕ → Act (Session D U) ℕ
  sys_read fd x n = do
    k ← get_kernel
    f ← get_system
    (if is_error (process_has_file_permission k f.open_files (running k).pid fd read)
        then failed m (codes "File not open\n")
        else (do
          old ← on_volume (local_inode m.platform)
          (status, inode) ← on_volume (fdid_to_inode m.platform f.open_files fd old)
          (if is_error status
              then failed m (codes "Failed to open\n")
              else (if inode.type == inode_device
                  then (do counted ← on_kernel count_io_burst; read_device fd x n)
                  else (if not (inode.type == inode_file)
                      then failed m (codes "Cannot read this type of file\n")
                      else (do
                        (result, bytes) ←
                            on_volume
                              (read_from_inode m.platform inode 0 (bytes_from n f.memory x) n)
                        store_bytes x bytes
                        (if is_error result
                            then failed m (codes "Failed to read\n")
                            else pure n)))))))
