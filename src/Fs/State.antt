-- ===== src/Fs/State.antt =====
-- question/kernel/fs.h: the constants and structures of the file system.
-- An `int` is its 32-bit pattern, and a file name is the list of its bytes up to the final 0.
use assembly_os.Prelude.{ℕ, List}

abbrev pub inode_file : ℕ
inode_file = 1

abbrev pub inode_directory : ℕ
inode_directory = 2

abbrev pub inode_device : ℕ
inode_device = 3

abbrev pub max_files_in_directory : ℕ
max_files_in_directory = 10

abbrev pub read : ℕ
read = 0

abbrev pub write : ℕ
write = 1

abbrev pub read_write : ℕ
read_write = 2

abbrev pub read_global : ℕ
read_global = 3

abbrev pub write_global : ℕ
write_global = 4

pub record Superblock : Type 0 where
  pub disk_block_num : ℕ
  pub disk_block_length : ℕ
  pub inode_num : ℕ
  pub inode_start : ℕ
  pub free_inode_bitmap : List ℕ
  pub data_block_start : ℕ
  pub free_block_bitmap : List ℕ

pub record FileLink : Type 0 where
  pub inode_id : ℕ
  pub filename : List ℕ

pub record Directory : Type 0 where
  pub files_count : ℕ
  pub links : List FileLink

pub record FileDescriptor : Type 0 where
  pub id : ℕ
  pub flags : ℕ
  pub inode_id : ℕ

pub record FileDescriptorTable : Type 0 where
  pub count : ℕ
  pub opened : List FileDescriptor

-- `blocks` has MAX_INODE_BLOCKS = 6 elements.
pub record Inode : Type 0 where
  pub id : ℕ
  pub type : ℕ
  pub size : ℕ
  pub blocks_allocated : ℕ
  pub creation_time : ℕ
  pub modification_time : ℕ
  pub blocks : List ℕ
