-- ===== src/Fs/Files.antt =====
-- question/kernel/fs.c: the opening of files, and the initialisation of a disk.
pub mod Laws
use assembly_os.Prelude.{
  ℕ, zero, suc, ◌+◌, Bool, ◌&&◌, ◌||◌, Option, none, some, List, [], ◌∷◌, ◌==◌, if◌then◌else◌, ltb,
  bit_or, minus_one, is_error,
}
use assembly_os.Fs.State.{
  Superblock, Inode, Directory, FileDescriptorTable, inode_file, inode_device, write, read_write,
  write_global,
}
use assembly_os.Fs.Blocks.{new_superblock, write_superblock}
use assembly_os.Fs.Inodes.{new_inode, local_inode, read_inode, write_inode}
use assembly_os.Fs.Directories.{
  no_files, local_directory, read_dir, create_file, create_directory, create_root_directory,
}
use assembly_os.Fs.Paths.{is_nil, parse_filename, path_to_inode_id}
use assembly_os.Fs.Descriptors.{add_fd}
use assembly_os.Fs.Volume.{Platform, M, pure, ◌>>=◌, ◌>>◌, fault, get}

abbrev pub dev_name : List ℕ
dev_name = 100 ∷ 101 ∷ 118 ∷ []

abbrev pub stdin_name : List ℕ
stdin_name = 115 ∷ 116 ∷ 100 ∷ 105 ∷ 110 ∷ []

abbrev pub stdout_name : List ℕ
stdout_name = 115 ∷ 116 ∷ 100 ∷ 111 ∷ 117 ∷ 116 ∷ []

abbrev pub stderr_name : List ℕ
stderr_name = 115 ∷ 116 ∷ 100 ∷ 101 ∷ 114 ∷ 114 ∷ []

-- The flags with which a file that is not found is created.
abbrev pub creates : ℕ → Bool
creates flags = flags == write || (flags == read_write || flags == write_global)

module _ {D : Type 0} (p : Platform D) where
  -- The directory that a path before a file name leads to, and the variable for its inode; no
  -- status is tested.
  unfoldable pub parent_directory : Directory → List ℕ → Inode → M D (Inode × Directory)
  parent_directory dir path old = if is_nil path then pure (old, dir) else (do
    dir_inode_id ← path_to_inode_id p dir path
    (_, inode) ← read_inode p dir_inode_id old
    old_dir ← local_directory p
    (_, dir_to_check) ← read_dir p inode old_dir
    pure (inode, dir_to_check))

  -- The end of `open_file`: a file that is not found is created if the flags say so, and the
  -- descriptor is added whether or not that succeeds.
  open_at : FileDescriptorTable → Directory → List ℕ → ℕ → M D (ℕ × FileDescriptorTable)
  open_at t dir_to_check filename flags = do
    inode_id ← path_to_inode_id p dir_to_check filename
    (if is_error inode_id
        then (if creates flags
            then (do
              (created, _) ← create_file p dir_to_check filename inode_file
              (let (t', fd) = add_fd t created flags in pure (fd, t')))
            else pure (minus_one, t))
        else (let (t', fd) = add_fd t inode_id flags in pure (fd, t')))

  open_parsed :
      FileDescriptorTable
      → Directory
      → Option (ℕ × List ℕ × List ℕ)
      → ℕ
      → M D (ℕ × FileDescriptorTable)
  unfolding open_at
  open_parsed t dir none flags = fault
  open_parsed t dir (some (status, filename, path)) flags =
      if is_error status then pure (minus_one, t) else (do
        old ← local_inode p
        (_, dir_to_check) ← parent_directory dir path old
        open_at t dir_to_check filename flags)

  -- The descriptor's id or -1, and the table.
  unfoldable pub open_file :
      FileDescriptorTable → Directory → List ℕ → ℕ → M D (ℕ × FileDescriptorTable)
  unfolding open_parsed
  open_file t dir path_and_filename flags =
      open_parsed t dir (parse_filename path_and_filename) flags

  init_inodes_from : ℕ → ℕ → M D ℕ
  init_inodes_from zero i = pure 0
  init_inodes_from (suc n) i = do
    status ← write_inode p (new_inode i)
    (if is_error status then pure minus_one else init_inodes_from n (i + 1))

  -- No round is run for a negative `inode_num`, which no call of `write_inode` changes.
  unfoldable pub init_inodes : M D ℕ
  unfolding init_inodes_from
  init_inodes = do
    superblock ← get
    init_inodes_from (if ltb superblock.inode_num 2147483648 then superblock.inode_num else 0) 0

  unfoldable pub init_disk : M D (ℕ × Directory)
  init_disk = do
    new_superblock p
    written ← write_superblock p
    initiated ← init_inodes
    (created, root_dir) ← create_root_directory p
    pure (bit_or (bit_or written initiated) created, root_dir)

  -- The creations of the devices in turn, until one fails.
  create_devices : List (List ℕ) → Directory → M D ℕ
  create_devices [] dir = pure 0
  create_devices (name ∷ names) dir = do
    (status, dir') ← create_file p dir name inode_device
    (if is_error status then pure minus_one else create_devices names dir')

  -- The status and the root directory.
  unfoldable pub create_io_devices : Directory → M D (ℕ × Directory)
  unfolding create_devices
  create_io_devices root_dir = do
    (status, root_dir', dev_dir) ← create_directory p root_dir dev_name no_files
    (if is_error status then pure (minus_one, root_dir') else (do
      created ← create_devices (stdin_name ∷ stdout_name ∷ stderr_name ∷ []) dev_dir
      pure (created, root_dir')))
