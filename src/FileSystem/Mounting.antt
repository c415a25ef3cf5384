-- ===== src/FileSystem/Mounting.antt =====
-- question/kernel/file_system_calls.c: mounting and unmounting, and the opening of files.
pub mod Laws
use assembly_os.Prelude.{
  ℕ, zero, suc, ◌+◌, false, ◌||◌, some, List, ◌∷◌, ◌++◌, ◌==◌, if◌then◌else◌, slt, bit_or,
  minus_one, is_error, replicate,
}
use assembly_os.Prelude.{codes}
use assembly_os.Process.State.{running, max_open_files}
use assembly_os.Process.Files.{add_process_fd}
use assembly_os.Fs.State.{Superblock, FileDescriptorTable, read_global, write_global}
use assembly_os.Fs.Volume.{Act, pure, ◌>>=◌, ◌>>◌, modify}
use assembly_os.Fs.Blocks.{read_superblock, valid_superblock, write_superblock}
use assembly_os.Fs.Descriptors.{descriptor, no_descriptor, close_file, sys_close}
use assembly_os.Fs.Directories.{no_files, read_root_dir}
use assembly_os.Fs.Paths.{slash, parse_filename}
use assembly_os.Fs.Files.{
  init_disk, create_io_devices, open_file, dev_name, stdin_name, stdout_name, stderr_name,
}
use assembly_os.FileSystem.{
  Machine, Session, get_system, modify_system, on_kernel, on_volume, set_root, set_table,
  user_string, or_fault, failed,
}

-- A superblock filled with 0.
abbrev pub no_superblock : Superblock
no_superblock = record {
  disk_block_num = 0;
  disk_block_length = 0;
  inode_num = 0;
  inode_start = 0;
  free_inode_bitmap = replicate 8 0;
  data_block_start = 0;
  free_block_bitmap = replicate 128 0;
}

abbrev pub no_open_files : FileDescriptorTable
no_open_files = record { count = 0; opened = replicate max_open_files no_descriptor }

-- "/dev/" and the name.
abbrev pub device_path : List ℕ → List ℕ
device_path name = (slash ∷ dev_name) ++ (slash ∷ name)

module _ {D U : Type 0} (m : Machine D U) where
  unfoldable pub init_disk_globals : Act (Session D U) (Unit {0})
  init_disk_globals = do
    on_volume (modify (λ _. no_superblock))
    modify_system (λ f. record f { root_dir = no_files; open_files = no_open_files })

  -- `open_file` on the mounted disk, for the table of open files. Where `parse_filename` refuses the
  -- path, it returns before it uses a pointer.
  unfoldable pub open_here : List ℕ → ℕ → Act (Session D U) ℕ
  open_here path flags = do
    f ← get_system
    (status, filename, directory) ← or_fault (parse_filename path)
    (if is_error status then pure minus_one else (do
      (fd, t) ← on_volume (open_file m.platform f.open_files f.root_dir path flags)
      set_table t
      pure fd))

  unfoldable pub open_io_devices : Act (Session D U) ℕ
  open_io_devices = do
    input ← open_here (device_path stdin_name) read_global
    modify_system (λ f. record f { stdin_fd = input })
    output ← open_here (device_path stdout_name) write_global
    modify_system (λ f. record f { stdout_fd = output })
    error ← open_here (device_path stderr_name) write_global
    modify_system (λ f. record f { stderr_fd = error })
    pure (if is_error input || (is_error output || is_error error) then minus_one else 0)

  -- The two ways in which `sys_mount` goes on: a disk that is new, and one that is initialised.
  unfoldable pub mount_new : Act (Session D U) ℕ
  mount_new = do
    (initiated, root) ← on_volume (init_disk m.platform)
    (created, root') ← on_volume (create_io_devices m.platform root)
    set_root root'
    pure (bit_or initiated created)

  unfoldable pub mount_old : Act (Session D U) ℕ
  mount_old = do
    f ← get_system
    (status, root) ← on_volume (read_root_dir m.platform f.root_dir)
    set_root root
    pure status

  unfoldable pub sys_mount : Act (Session D U) ℕ
  sys_mount = do
    init_disk_globals
    already ← on_volume (valid_superblock m.platform)
    (if already == 0
        then (do
          found ← on_volume (read_superblock m.platform)
          valid ← on_volume (valid_superblock m.platform)
          status ← (if valid == 0 then mount_new else mount_old)
          opened ← open_io_devices
          written ← on_volume (write_superblock m.platform)
          (if is_error (bit_or (bit_or found status) opened)
              then failed m (codes "Error mounting disk\n")
              else pure 0))
        else failed m (codes "Disk already mounted\n"))

  -- The loop of `sys_unmount`. Each round raises `i` and no round raises the count, so the count at
  -- the start is enough rounds.
  close_all : ℕ → ℕ → FileDescriptorTable → ℕ × FileDescriptorTable
  close_all zero i t = (0, t)
  close_all (suc n) i t =
      let (t', status) = close_file t (descriptor t i).id in
      let rest = close_all n (i + 1) t' in
      if slt i t.count then (if is_error status then (minus_one, t') else rest) else (0, t)

  unfoldable pub sys_unmount : Act (Session D U) ℕ
  unfolding close_all
  sys_unmount = do
    f ← get_system
    (if f.is_mounted
        then (do
          let closed = close_all f.open_files.count 0 f.open_files
          set_table (closed.1)
          (if is_error (closed.0) then failed m (codes "Couldn't close all open files\n") else (do
            status ← on_volume (write_superblock m.platform)
            (if is_error status
                then failed m (codes "Failed to unmount disk\n")
                else (do modify_system (λ f. record f { is_mounted = false }); pure 0)))))
        else failed m (codes "Disk not mounted\n"))

  unfoldable pub sys_open : ℕ → ℕ → Act (Session D U) ℕ
  sys_open pointer flags = do
    path ← user_string pointer
    fd ← open_here path flags
    (if is_error fd then failed m (codes "Failed to open file\n") else (do
      f ← get_system
      (status, root) ← on_volume (read_root_dir m.platform f.root_dir)
      set_root root
      (if is_error status then failed m (codes "Failed to read root dir\n") else (do
        added ← on_kernel (λ k. add_process_fd k (running k).pid fd)
        pure (if is_error added then minus_one else fd)))))

  -- `sys_close` of Fs/Descriptors, on the table of open files.
  unfoldable pub sys_close_here : ℕ → Act (Session D U) ℕ
  sys_close_here fd (k, f) =
      let (k', t, r) = sys_close k f.open_files fd in
      if is_error (close_file f.open_files fd).1
      then failed m (codes "Failed to close file\n") (k', record f { open_files = t })
      else some (r, (k', record f { open_files = t }))
