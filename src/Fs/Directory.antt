-- ===== src/Fs/Directory.antt =====
-- question/kernel/fs.c: the lookup and the deletion of a link in a directory.
pub mod Laws
use assembly_os.Prelude.{
  ℕ, zero, suc, ◌+◌, ◌-◌, Bool, true, false, ◌&&◌, Option, none, some, List, [], ◌∷◌, ◌==◌,
  minus_one, get_or, memmove, index_where,
}
use assembly_os.Fs.State.{FileLink, Directory}

-- `strcmp(a, b) == 0`
unfoldable pub same_name : List ℕ → List ℕ → Bool
same_name [] [] = true
same_name [] (y ∷ ys) = false
same_name (x ∷ xs) [] = false
same_name (x ∷ xs) (y ∷ ys) = let rest = same_name xs ys in x == y && rest

-- It stands for what lies past the end of the array; no loop reads it.
abbrev pub no_link : FileLink
no_link = record { inode_id = 0; filename = [] }

abbrev pub link : Directory → ℕ → FileLink
link dir i = get_or dir.links i no_link

-- The loop of both functions: the index of the first link with the name.
unfoldable pub link_index : Directory → List ℕ → Option ℕ
link_index dir filename =
    index_where (λ (l : FileLink). same_name filename l.filename) dir.files_count dir.links

delete_at : Directory → Option ℕ → Directory × ℕ
delete_at dir none = (dir, minus_one)
delete_at dir (some index) = (
  record {
    files_count = dir.files_count - 1;
    links = memmove dir.links index (index + 1) (dir.files_count - 1 - index);
  },
  0,
)

unfoldable pub delete_file_link : Directory → List ℕ → Directory × ℕ
unfolding delete_at
delete_file_link dir filename = delete_at dir (link_index dir filename)

inode_at : Directory → Option ℕ → ℕ
inode_at dir none = minus_one
inode_at dir (some i) = (link dir i).inode_id

unfoldable pub directory_lookup : Directory → List ℕ → ℕ
unfolding inode_at
directory_lookup dir filename = inode_at dir (link_index dir filename)
