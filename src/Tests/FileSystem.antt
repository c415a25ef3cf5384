-- ===== src/Tests/FileSystem.antt =====
-- The theorems on the calls on files at a machine with a disk in memory.
use assembly_os.Prelude.{
  ℕ, ◌≡◌, refl, arith, Option, some, none, List, [], ◌∷◌, replicate, minus_one, index_where, codes,
  if◌then◌else◌, ◌==◌,
}
use assembly_os.Fs.State.{Directory, FileDescriptorTable, write}
use assembly_os.Fs.Volume.{Volume, disk_write}
use assembly_os.Fs.Bytes.{decode_inode, decode_words, encode_superblock, encode_words}
use assembly_os.Fs.Alloc.{allocate_block}
use assembly_os.Fs.Bitmap.{set_bit, marked}
use assembly_os.Fs.Blocks.{write_superblock, write_sequential_blocks, write_rounds}
use assembly_os.Fs.Layout.{superblock_of, blocks_occupied}
use assembly_os.Fs.Directory.{directory_lookup, link_index, same_name}
use assembly_os.Fs.Directories.{no_files}
use assembly_os.Fs.Descriptors.{descriptor}
use assembly_os.Fs.Paths.{slash, parse_filename, path_to_inode_id, walk, split, tokens}
use assembly_os.Fs.Paths.Laws.{IsPart, parse_filename_lem}
use assembly_os.Fs.Inodes.{read_inode}
use assembly_os.Fs.Files.{open_file}
use assembly_os.Fs.Files.Laws.{open_file_lost}
use assembly_os.FileSystem.{System, Session, bytes_from, put_bytes, failed, string_from}
use assembly_os.FileSystem.Mounting.{sys_mount, sys_unmount, sys_open, no_open_files}
use assembly_os.FileSystem.Mounting.Laws.{unmount_final}
use assembly_os.FileSystem.Naming.{sys_ls, sys_stat}
use assembly_os.FileSystem.Streams.{write_device, read_device}
use assembly_os.FileSystem.Streams.Laws.{Output, Typed, write_device-Output, read_device-Typed}
use assembly_os.Tests.World.{world}
use assembly_os.Tests.Ram.{Blocks, Queues, platform, takes, gives, machine, system}

-- "abc"
abbrev name : List ℕ
name = 98 ∷ 99 ∷ []

name-IsPart : IsPart (97 ∷ name)
name-IsPart = (
  (λ e. absurd (omega (arith, e))),
  ((λ e. absurd (omega (arith, e))), ((λ e. absurd (omega (arith, e))), tt)),
)

parse_filename_lem_example :
    (parse_filename (47 ∷ 120 ∷ 47 ∷ 97 ∷ name) ≡ some (0, 97 ∷ name, 47 ∷ 120 ∷ []))
    × (parse_filename (47 ∷ 120 ∷ 47 ∷ []) ≡ some (minus_one, [], []))
    × (parse_filename (97 ∷ name) ≡ none)
parse_filename_lem_example =
    parse_filename_lem (47 ∷ 120 ∷ []) name 97 name-IsPart (omega arith) (omega arith)

-- The standard streams are open, and three characters wait.
abbrev running_system : System Blocks Queues
running_system = record system {
  stdin_fd = 0;
  stdout_fd = 1;
  stderr_fd = 2;
  uart1 = ([], 104 ∷ 27 ∷ 105 ∷ []);
}

write_device-Output_example :
    write_device machine 1 64 2 (world 0, running_system)
    ≡ some (2, (world 0, record running_system { uart0 = (0 ∷ 0 ∷ [], []) }))
unfolding bytes_from
write_device-Output_example =
    write_device-Output machine (world 0) running_system
      (record running_system { uart0 = (0 ∷ 0 ∷ [], []) }) 1 64 2 2 (omega arith)
      (Output.to_stdout refl (takes (0 ∷ 0 ∷ []) [] []))

read_device-Typed_example :
    read_device machine 0 64 3 (world 0, running_system)
    ≡ some (
      3,
      (
        world 0,
        record running_system {
          uart1 = ([], 105 ∷ []);
          memory = put_bytes (104 ∷ 27 ∷ []) 64 (λ a. 0);
        },
      ),
    )
read_device-Typed_example =
    read_device-Typed machine (world 0) running_system 64 3 (104 ∷ 27 ∷ []) ([], 105 ∷ [])
      (omega arith) (Typed.char (λ e. absurd (omega (arith, e))) (Typed.escape refl))
      (gives (104 ∷ 27 ∷ []) [] (105 ∷ []))

-- Nine links.
abbrev full : Directory
full = record no_files { files_count = 9 }

abbrev volume : Volume Blocks
volume = record { superblock = superblock_of 64 1024; device = λ a. replicate 1024 0 }

missing_found : path_to_inode_id platform full (97 ∷ name) volume ≡ some (minus_one, volume)
unfolding path_to_inode_id walk split tokens directory_lookup link_index same_name index_where
    read_inode decode_inode decode_words
missing_found = refl

open_file_lost_example :
    (t' : FileDescriptorTable) × (open_file platform no_open_files full
        (47 ∷ 97 ∷ name)
        write
        volume
      ≡ some ((0, t'), volume))
    × ((descriptor t' 0).inode_id ≡ minus_one)
unfolding index_where
open_file_lost_example =
    open_file_lost platform no_open_files full 97 name write minus_one volume volume name-IsPart
      (omega arith) missing_found refl refl (omega arith) (omega arith) (omega arith) refl refl

abbrev mounted_system : System Blocks Queues
mounted_system = record system { volume = volume; memory = λ a. if a == 64 then slash else 0 }

abbrev or_mounted : Option (ℕ × Session Blocks Queues) → System Blocks Queues
or_mounted none = mounted_system
or_mounted (some (r, (k, f))) = f

abbrev released : System Blocks Queues
released = or_mounted (sys_unmount machine (world 0, mounted_system))

unmounted : sys_unmount machine (world 0, mounted_system) ≡ some (0, (world 0, released))
unfolding sys_unmount write_superblock write_sequential_blocks write_rounds disk_write superblock_of
    blocks_occupied allocate_block set_bit marked encode_superblock encode_words
unmounted = refl

-- The path "/" at the address 64.
root_path : string_from 1024 released.memory 64 ≡ some (slash ∷ [])
unfolding string_from sys_unmount write_superblock write_sequential_blocks write_rounds disk_write
    superblock_of blocks_occupied allocate_block set_bit marked encode_superblock encode_words
root_path = refl

unmount_final_example :
    (sys_unmount machine (world 0, released)
      ≡ failed machine (codes "Disk not mounted\n") (world 0, released))
    × (sys_mount machine (world 0, released) ≡ none)
    × (sys_open machine 64 0 (world 0, released)
        ≡ failed machine (codes "Failed to open file\n") (world 0, released))
    × (sys_ls machine 64 0 (world 0, released) ≡ none)
    × (sys_stat machine 64 0 (world 0, released) ≡ none)
unfolding parse_filename split tokens
unmount_final_example =
    unmount_final machine (world 0, mounted_system) (world 0) released 64 0 (slash ∷ []) unmounted
      root_path
