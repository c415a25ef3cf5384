-- ===== src/FileSystem/Naming.antt =====
-- question/kernel/file_system_calls.c: the calls that list, describe, create and delete files.
use assembly_os.Prelude.{
  ℕ, zero, suc, ◌+◌, Option, none, some, List, [], ◌∷◌, ◌++◌, if◌then◌else◌, slt, ltb, add32,
  length, minus_one, is_error,
}
use assembly_os.Prelude.{codes}
use assembly_os.Fs.State.{Inode, Directory, max_files_in_directory}
use assembly_os.Fs.Bytes.{word_bytes}
use assembly_os.Fs.Directory.{link, delete_file_link}
use assembly_os.Fs.Inodes.{local_inode, read_inode, delete_inode}
use assembly_os.Fs.Directories.{
  no_files, local_directory, read_dir, write_dir, create_directory, read_root_dir,
}
use assembly_os.Fs.Paths.{is_nil, path_to_inode_id, parse_filename}
use assembly_os.Fs.Files.{parent_directory}
use assembly_os.Fs.Volume.{Act, pure, ◌>>=◌, ◌>>◌, fault}
use assembly_os.FileSystem.{
  Machine, Session, get_system, or_fault, on_volume, set_root, user_string, string_at, store_bytes,
  report, failed,
}

-- The names of the first `n` files from the `i`th on, each with a newline behind it. The links past
-- the tenth lie outside the array.
names_from : ℕ → ℕ → Directory → Option (List ℕ)
names_from zero i dir = some []
names_from (suc n) i dir =
    let rest = names_from n (i + 1) dir in
    if ltb i max_files_in_directory
    then elim rest [ none ↦ none | some cs ↦ some ((link dir i).filename ++ (10 ∷ cs)) ]
    else none

unfoldable pub listing : Directory → Option (List ℕ)
unfolding names_from
listing dir = names_from (if slt 0 dir.files_count then dir.files_count else 0) 0 dir

-- The fields that `sys_stat` writes, in the order of `file_stat_t`.
unfoldable pub file_stat : Inode → List ℕ
file_stat inode =
    word_bytes inode.type
    ++ (word_bytes inode.size
        ++ (word_bytes inode.creation_time ++ word_bytes inode.modification_time))

module _ {D U : Type 0} (m : Machine D U) where
  -- `strcat`: behind the string that the pointer points to.
  unfoldable pub append : ℕ → List ℕ → Act (Session D U) (Unit {0})
  append pointer cs = do
    before ← string_at 4294967296 pointer
    store_bytes (add32 pointer (length before)) (cs ++ (0 ∷ []))

  -- `strcat` after `strcat` puts the names behind one another; a directory without files leaves the
  -- list as it is.
  unfoldable pub append_listing : ℕ → Option (List ℕ) → Act (Session D U) ℕ
  unfolding append
  append_listing pointer none = fault
  append_listing pointer (some cs) = if is_nil cs then pure 0 else (do append pointer cs; pure 0)

  unfoldable pub sys_ls : ℕ → ℕ → Act (Session D U) ℕ
  unfolding append_listing
  sys_ls pointer file_list = do
    path ← user_string pointer
    f ← get_system
    inode_id ← on_volume (path_to_inode_id m.platform f.root_dir path)
    (if is_error inode_id then pure minus_one else (do
      old ← on_volume (local_inode m.platform)
      (status, inode) ← on_volume (read_inode m.platform inode_id old)
      (if is_error status then pure minus_one else (do
        old_dir ← on_volume (local_directory m.platform)
        (result, dir) ← on_volume (read_dir m.platform inode old_dir)
        (if is_error result
            then failed m (codes "This is not a directory\n")
            else append_listing file_list (listing dir))))))

  unfoldable pub sys_stat : ℕ → ℕ → Act (Session D U) ℕ
  sys_stat pointer file_info = do
    path ← user_string pointer
    f ← get_system
    inode_id ← on_volume (path_to_inode_id m.platform f.root_dir path)
    (if is_error inode_id then failed m (codes "No such file\n") else (do
      old ← on_volume (local_inode m.platform)
      (status, inode) ← on_volume (read_inode m.platform inode_id old)
      (if is_error status
          then pure minus_one
          else (do store_bytes file_info (file_stat inode); pure 0))))

  -- The status of the last call of `sys_mkdir` and `sys_rm`. Where it succeeds, the functions end
  -- without `return`.
  unfoldable pub reread_root : Act (Session D U) ℕ
  reread_root = do
    f ← get_system
    (status, root) ← on_volume (read_root_dir m.platform f.root_dir)
    set_root root
    (if is_error status then failed m (codes "Failed to read root dir\n") else pure m.no_return)

  -- The directory for a new one, with the statuses tested: `none` where a read fails.
  unfoldable pub checked_parent : Directory → List ℕ → Act (Session D U) (Option Directory)
  checked_parent root path = if is_nil path then pure (some root) else (do
    dir_inode_id ← on_volume (path_to_inode_id m.platform root path)
    old ← on_volume (local_inode m.platform)
    (status, inode) ← on_volume (read_inode m.platform dir_inode_id old)
    (if is_error status then (do report m (codes "Failed to read inode\n"); pure none) else (do
      old_dir ← on_volume (local_directory m.platform)
      (result, dir) ← on_volume (read_dir m.platform inode old_dir)
      (if is_error result
          then (do report m (codes "Failed to read dir\n"); pure none)
          else pure (some dir)))))

  unfoldable pub make_in : List ℕ → Option Directory → Act (Session D U) ℕ
  unfolding reread_root
  make_in filename none = pure minus_one
  make_in filename (some parent_dir) = do
    (created, rest, made) ← on_volume (create_directory m.platform parent_dir filename no_files)
    (if is_error created then failed m (codes "Failed to write dir\n") else reread_root)

  unfoldable pub sys_mkdir : ℕ → Act (Session D U) ℕ
  unfolding make_in checked_parent
  sys_mkdir pointer = do
    input ← user_string pointer
    (status, filename, path) ← or_fault (parse_filename input)
    (if is_error status
        then failed m (codes "Failed to parse path\n")
        else (do f ← get_system; parent ← checked_parent f.root_dir path; make_in filename parent))

  -- The part that `sys_rmdir` and `sys_rm` share: the directory of the file, the file's id, and what
  -- the variable `inode` holds, which is the directory's inode where the path has one.
  abbrev pub find_file : List ℕ → List ℕ → Act (Session D U) (Directory × ℕ × Inode)
  find_file filename path = do
    f ← get_system
    old ← on_volume (local_inode m.platform)
    (inode, parent_dir) ← on_volume (parent_directory m.platform f.root_dir path old)
    inode_id ← on_volume (path_to_inode_id m.platform parent_dir filename)
    pure (parent_dir, inode_id, inode)

  -- The read of the file's inode is not tested, and leaves the variable as it was when it fails. The
  -- statements behind the `return` of the source never run, so the directory in memory keeps
  -- the link where it is the root.
  unfoldable pub sys_rmdir : ℕ → Act (Session D U) ℕ
  sys_rmdir pointer = do
    input ← user_string pointer
    (status, filename, path) ← or_fault (parse_filename input)
    (if is_error status then failed m (codes "Failed to parse path\n") else (do
      (parent_dir, inode_id, old) ← find_file filename path
      (found, inode) ← on_volume (read_inode m.platform inode_id old)
      old_dir ← on_volume (local_directory m.platform)
      (result, dir_to_delete) ← on_volume (read_dir m.platform inode old_dir)
      (if is_error result
          then failed m (codes "File is not a directory\n")
          else (if slt 2 dir_to_delete.files_count
              then failed m (codes "Directory not empty\n")
              else (do
                let (parent_dir', deleted) = delete_file_link parent_dir filename
                written ← on_volume (write_dir m.platform parent_dir')
                on_volume (delete_inode m.platform inode))))))

  unfoldable pub sys_rm : ℕ → Act (Session D U) ℕ
  unfolding reread_root
  sys_rm pointer = do
    input ← user_string pointer
    (status, filename, path) ← or_fault (parse_filename input)
    (if is_error status then failed m (codes "Failed to parse path\n") else (do
      (parent_dir, inode_id, old) ← find_file filename path
      (found, inode) ← on_volume (read_inode m.platform inode_id old)
      (if is_error found then pure minus_one else (do
        let (parent_dir', deleted) = delete_file_link parent_dir filename
        (if is_error deleted then failed m (codes "Failed to delete link\n") else (do
          written ← on_volume (write_dir m.platform parent_dir')
          (if is_error written then failed m (codes "Failed to write dir\n") else (do
            erased ← on_volume (delete_inode m.platform inode)
            (if is_error erased
                then failed m (codes "Failed to delete inode\n")
                else reread_root)))))))))
