-- ===== src/Fs/Directories.antt =====
-- question/kernel/fs.c: directories on the disk, and the creation of files in them.
pub mod Laws
use assembly_os.Prelude.{
  ℕ, ◌+◌, Bool, not, List, [], ◌∷◌, ◌==◌, if◌then◌else◌, ltb, slt, add32, minus_one, set, length,
  replicate, is_error,
}
use assembly_os.Fs.State.{Inode, FileLink, Directory, inode_directory, max_files_in_directory}
use assembly_os.Fs.Bytes.{
  encode_directory, decode_directory, size_of_directory, max_file_name_length,
}
use assembly_os.Fs.Directory.{link, no_link, directory_lookup}
use assembly_os.Fs.Inodes.{
  local_inode, read_inode, create_inode_type, read_from_inode, write_to_inode,
}
use assembly_os.Fs.Volume.{Platform, M, pure, ◌>>=◌, ◌>>◌, guard, local}

-- "." and ".."
abbrev pub dot : List ℕ
dot = 46 ∷ []

abbrev pub dot_dot : List ℕ
dot_dot = 46 ∷ 46 ∷ []

abbrev pub new_link : ℕ → List ℕ → FileLink
new_link inode_id filename = record { inode_id = inode_id; filename = filename }

-- The link for a new file and the count that includes it.
abbrev pub add_link : Directory → FileLink → Directory
add_link dir l = record {
  files_count = add32 dir.files_count 1;
  links = set dir.links dir.files_count l;
}

-- The first two links, "." and "..", of a directory.
abbrev pub dot_links : Directory → ℕ → ℕ → Directory
dot_links dir id parent = record {
  files_count = 2;
  links = set (set dir.links 0 (new_link id dot)) 1 (new_link parent dot_dot);
}

-- A directory filled with 0.
abbrev pub no_files : Directory
no_files = record { files_count = 0; links = replicate max_files_in_directory no_link }

module _ {D : Type 0} (p : Platform D) where
  -- A variable of type `directory_t` that was not assigned.
  abbrev pub local_directory : M D Directory
  local_directory = do bytes ← local p size_of_directory; pure (decode_directory bytes)

  -- The status of the read of the inode is not tested.
  unfoldable pub write_dir : Directory → M D ℕ
  write_dir dir = do
    let id = (link dir 0).inode_id
    old ← local_inode p
    (_, inode) ← read_inode p id old
    status ← write_to_inode p inode 0 (encode_directory dir) size_of_directory
    pure (if is_error status then minus_one else id)

  -- `dir` is what the variable held before; the new content is returned.
  unfoldable pub read_dir : Inode → Directory → M D (ℕ × Directory)
  read_dir inode dir =
      if inode.type == inode_directory
      then (do
        (status, bytes) ← read_from_inode p inode 0 (encode_directory dir) size_of_directory
        pure (status, decode_directory bytes))
      else pure (minus_one, dir)

  -- The end of `create_file`, with the new inode.
  link_file : Directory → List ℕ → ℕ → M D (ℕ × Directory)
  link_file dir filename inode_id = do
    guard (ltb (length filename) max_file_name_length)
    let dir' = add_link dir (new_link inode_id filename)
    status ← write_dir dir'
    pure (if is_error status then minus_one else inode_id, dir')

  -- The status, and the directory in memory. A name that does not fit overruns its array.
  unfoldable pub create_file : Directory → List ℕ → ℕ → M D (ℕ × Directory)
  unfolding link_file
  create_file dir filename type =
      if not (is_error (directory_lookup dir filename))
      then pure (minus_one, dir)
      else (if not (slt (add32 dir.files_count 1) max_files_in_directory)
          then pure (minus_one, dir)
          else (do
            inode_id ← create_inode_type p type
            (if is_error inode_id then pure (minus_one, dir) else link_file dir filename inode_id)))

  -- The status, the parent and the new directory.
  unfoldable pub create_directory : Directory → List ℕ → Directory → M D (ℕ × Directory × Directory)
  create_directory parent_dir filename dir = do
    (inode_id, parent) ← create_file parent_dir filename inode_directory
    (if is_error inode_id then pure (minus_one, parent, dir) else (do
      let dir' = dot_links dir inode_id (link parent 0).inode_id
      status ← write_dir dir'
      pure (status, parent, dir')))

  unfoldable pub create_root_directory : M D (ℕ × Directory)
  create_root_directory = do
    inode_id ← create_inode_type p inode_directory
    (if is_error inode_id then pure (minus_one, no_files) else (do
      let root_dir = dot_links no_files inode_id inode_id
      status ← write_dir root_dir
      pure (status, root_dir)))

  -- Inode 0 is the root directory.
  unfoldable pub read_root_dir : Directory → M D (ℕ × Directory)
  read_root_dir dir = do
    old ← local_inode p
    (status, inode) ← read_inode p 0 old
    (if is_error status then pure (minus_one, dir) else read_dir inode dir)
