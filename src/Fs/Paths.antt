-- ===== src/Fs/Paths.antt =====
-- question/kernel/fs.c: paths. `strtok` gives the parts between the separators that are not empty.
pub mod Laws
use assembly_os.Prelude.{
  ℕ, zero, suc, ◌+◌, ◌-◌, Bool, true, false, not, Option, none, some, List, [], ◌∷◌, ◌++◌, ◌==◌,
  if◌then◌else◌, leb, ltb, minus_one, get_or, take, length,
}
use assembly_os.Fs.State.{Inode, Directory, inode_directory}
use assembly_os.Fs.Bytes.{max_file_name_length}
use assembly_os.Fs.Directory.{directory_lookup}
use assembly_os.Fs.Inodes.{local_inode, read_inode}
use assembly_os.Fs.Directories.{dot, read_dir}
use assembly_os.Fs.Volume.{Platform, M, pure, ◌>>=◌, ◌>>◌, guard}

-- MAX_PATH_LENGTH of fs.h.
abbrev pub max_path_length : ℕ
max_path_length = 1024

abbrev pub slash : ℕ
slash = 47

-- The part that the string begins with, and the parts behind its end.
abbrev pub first_part : List ℕ → List (List ℕ) → List (List ℕ)
first_part [] parts = parts
first_part (c ∷ cs) parts = (c ∷ cs) ∷ parts

-- The part up to the next separator and the parts behind that.
unfoldable pub tokens : ℕ → List ℕ → List ℕ × List (List ℕ)
tokens separator [] = ([], [])
tokens separator (c ∷ cs) =
    let (part, parts) = tokens separator cs in
    if c == separator then ([], first_part part parts) else (c ∷ part, parts)

-- What the calls of `strtok` give one after the other.
unfoldable pub split : ℕ → List ℕ → List (List ℕ)
split separator path = first_part (tokens separator path).0 (tokens separator path).1

-- The last of some parts, or what was there before.
abbrev pub last_part : List ℕ → List (List ℕ) → List ℕ
last_part previous [] = previous
last_part previous (part ∷ parts) = last_part part parts

-- "/" stands for "/.".
abbrev pub path_parts : List (List ℕ) → List (List ℕ)
path_parts [] = dot ∷ []
path_parts (part ∷ parts) = part ∷ parts

abbrev pub is_nil : {A : Type 0} → List A → Bool
is_nil [] = true
is_nil (x ∷ xs) = false

module _ {D : Type 0} (p : Platform D) where
  -- The loop of `path_to_inode_id`. The variables `inode` and `current_dir` keep what they held
  -- where a read fails, since its status is not tested.
  unfoldable pub walk : List (List ℕ) → ℕ → Inode → Directory → M D ℕ
  walk [] inode_id inode dir = pure inode_id
  walk (part ∷ parts) inode_id inode dir = do
    let id = directory_lookup dir part
    (_, inode') ← read_inode p id inode
    (if inode'.type == inode_directory
        then (do (_, dir') ← read_dir p inode' dir; walk parts id inode' dir')
        else pure (if is_nil parts then id else minus_one))

  unfoldable pub path_to_inode_id : Directory → List ℕ → M D ℕ
  unfolding walk
  path_to_inode_id dir path = do
    guard (ltb (length path) max_path_length)
    inode ← local_inode p
    walk (path_parts (split slash path)) minus_one inode dir

-- The last character of a string that is not empty.
abbrev pub last_char : List ℕ → ℕ
last_char s = get_or s (length s - 1) 0

-- The status, the file name and the path before it. `none` is an access outside an array: before
-- an empty string, past a buffer, or before `path` when the input has no separator.
unfoldable pub parse_filename : List ℕ → Option (ℕ × List ℕ × List ℕ)
parse_filename input =
    let filename = last_part input (split slash input) in
    if is_nil input
    then none
    else (if not (ltb (length input) max_path_length)
        then none
        else (if last_char input == slash
            then some (minus_one, [], [])
            else (if not (ltb (length filename) max_file_name_length)
                then none
                else (if leb (length input) (length filename)
                    then none
                    else some (0, filename, take (length input - length filename - 1) input)))))
