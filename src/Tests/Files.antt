-- ===== src/Tests/Files.antt =====
-- The theorems on the tables of the file system at concrete tables.
use assembly_os.Fs.Descriptors.Once.{
  IsOnce, nothing_open, empty, opening, closing, Reachable-IsOnce,
}
use assembly_os.Prelude.{
  ℕ, zero, suc, ◌<◌, ◌≡◌, ◌≢◌, refl, ap, arith, false, List, [], ◌∷◌, replicate, some, none,
  minus_one, index_where,
}
use assembly_os.Fs.State.{
  Superblock, FileLink, Directory, FileDescriptor, FileDescriptorTable, read,
}
use assembly_os.Fs.Bitmap.{get_bit}
use assembly_os.Fs.Bitmap.Laws.{IsMapped}
use assembly_os.Fs.Alloc.{allocate_block, free_data_block}
use assembly_os.Fs.Alloc.Laws.{free_data_block-allocate_block, allocate_block_lost}
use assembly_os.Fs.Descriptors.{
  no_descriptor, descriptor, fdid_to_fd, add_fd, close_file, process_has_file_permission,
}
use assembly_os.Fs.Descriptors.Laws.{IsSized, IsDistinct, opened_as}
use assembly_os.Fs.Descriptors.Closing.{IsNumbered, close_file-removes, add_fd-close_file_shared}
use assembly_os.Fs.Directory.{
  no_link, link, delete_file_link, directory_lookup, link_index, same_name,
}
use assembly_os.Fs.Directory.Laws.{DirectoryIsValid, delete_file_link_lem}
use assembly_os.Fs.Layout.{superblock_of}
use assembly_os.Process.Files.{proc_fd_open}
use assembly_os.Tests.World.{world}

-- A shift by 32 or more gives 0, as on the ARM processor.
abbrev wide : ℕ → ℕ
wide n = 0

-- Blocks 0 to 4 and 6 are taken, and inode 0.
abbrev disk : Superblock
disk = record {
  disk_block_num = 200;
  disk_block_length = 16;
  inode_num = 12;
  inode_start = 1;
  free_inode_bitmap = 1 ∷ replicate 8 0;
  data_block_start = 5;
  free_block_bitmap = 95 ∷ replicate 128 0;
}

disk-IsMapped : IsMapped disk.free_block_bitmap 7
disk-IsMapped = record { in_map = omega arith; in_word = omega arith }

free_data_block-allocate_block_example :
    (t : Superblock) × (allocate_block wide disk 7 ≡ some t) × (free_data_block wide t ≢ some 7)
free_data_block-allocate_block_example =
    free_data_block-allocate_block wide disk 7 (omega arith) (omega arith) disk-IsMapped

allocate_block_lost_example :
    (allocate_block wide disk 40 ≡ some disk)
    × (get_bit wide disk.free_block_bitmap 40 ≡ some false)
allocate_block_lost_example = allocate_block_lost wide disk 40 (omega arith) (omega arith) refl

abbrev a_file : ℕ → ℕ → FileDescriptor
a_file id inode_id = record { id = id; flags = 2; inode_id = inode_id }

-- Three files are open.
abbrev table : FileDescriptorTable
table = record {
  count = 3;
  opened = a_file 0 5 ∷ a_file 1 6 ∷ a_file 2 7 ∷ replicate 7 no_descriptor;
}

table-IsSized : IsSized table
table-IsSized = record { size = refl; fits = omega arith }

table-IsNumbered : IsNumbered table
table-IsNumbered zero h = refl
table-IsNumbered (suc zero) h = refl
table-IsNumbered (suc (suc zero)) h = refl
table-IsNumbered (suc (suc (suc i))) h = absurd (omega arith)

table-IsDistinct : IsDistinct table
table-IsDistinct i j h l e = omega (arith, table-IsNumbered i h, table-IsNumbered j l, e)

not_open : opened_as table 8 ≡ none
unfolding index_where
not_open = refl

not_taken : fdid_to_fd table 3 ≡ none
unfolding fdid_to_fd index_where
not_taken = refl

second_fd : fdid_to_fd table 1 ≡ some 1
unfolding fdid_to_fd index_where
second_fd = refl

close_file-removes_example :
    ((close_file table 1).1 ≡ 0)
    × (fdid_to_fd (close_file table 1).0 1 ≡ none)
    × ((g j : ℕ)
        → g ≢ 1
        → fdid_to_fd table g ≡ some j
        → (m : ℕ) × (fdid_to_fd (close_file table 1).0 g ≡ some m)
          × (descriptor (close_file table 1).0 m ≡ descriptor table j))
    × IsDistinct (close_file table 1).0
close_file-removes_example =
    close_file-removes table 1 1 table-IsSized table-IsDistinct second_fd refl

still_not_open : opened_as (close_file table 0).0 8 ≡ none
unfolding close_file fdid_to_fd index_where
still_not_open = refl

add_fd-close_file_shared_example :
    ((add_fd (close_file table 0).0 8 2).1 ≡ 2)
    × (fdid_to_fd (add_fd (close_file table 0).0 8 2).0 (add_fd (close_file table 0).0 8 2).1
        ≡ some 1)
    × (descriptor (add_fd (close_file table 0).0 8 2).0 1 ≡ a_file 2 7)
add_fd-close_file_shared_example =
    add_fd-close_file_shared table 0 8 2 table-IsSized table-IsNumbered (omega arith) refl
      still_not_open

-- The file that process 1 has open under the id 7.
abbrev private_table : FileDescriptorTable
private_table = record { count = 1; opened = a_file 7 5 ∷ replicate 9 no_descriptor }

may_read : process_has_file_permission (world 0) private_table 1 7 read ≡ 1
unfolding process_has_file_permission fdid_to_fd proc_fd_open index_where
may_read = refl

abbrev a_link : ℕ → ℕ → FileLink
a_link inode_id letter = record { inode_id = inode_id; filename = letter ∷ [] }

-- The files `a` and `b`.
abbrev root : Directory
root = record { files_count = 2; links = a_link 3 97 ∷ a_link 4 98 ∷ replicate 8 no_link }

abbrev letter : List ℕ → ℕ
letter [] = 0
letter (x ∷ xs) = x

root_names : (i j : ℕ) → i < 2 → j < 2 → (link root i).filename ≡ (link root j).filename → i ≡ j
root_names zero zero h l e = refl
root_names zero (suc zero) h l e = omega (arith, ap letter e)
root_names (suc zero) zero h l e = omega (arith, ap letter e)
root_names (suc zero) (suc zero) h l e = refl
root_names i (suc (suc j)) h l e = absurd (omega arith)
root_names (suc (suc i)) j h l e = absurd (omega arith)

root-DirectoryIsValid : DirectoryIsValid root
root-DirectoryIsValid = record { size = refl; fits = omega arith; distinct = root_names }

a_found : link_index root (97 ∷ []) ≡ some 0
unfolding link_index index_where same_name
a_found = refl

delete_file_link_lem_example :
    ((delete_file_link root (97 ∷ [])).1 ≡ 0)
    × (directory_lookup (delete_file_link root (97 ∷ [])).0 (97 ∷ []) ≡ minus_one)
    × ((other : List ℕ)
        → other ≢ (97 ∷ [])
        → directory_lookup (delete_file_link root (97 ∷ [])).0 other ≡ directory_lookup root other)
    × DirectoryIsValid (delete_file_link root (97 ∷ [])).0
delete_file_link_lem_example = delete_file_link_lem root (97 ∷ []) 0 root-DirectoryIsValid a_found

inode_7 : 7 < (superblock_of 100 32).inode_num
unfolding superblock_of
inode_7 = omega arith

-- Two inodes are opened, and the first of them is closed.
Reachable-IsOnce_example : IsOnce (close_file (add_fd (add_fd nothing_open 5 0).0 6 1).0 0).0
Reachable-IsOnce_example = Reachable-IsOnce (closing (opening (opening empty 5 0) 6 1) 0)
