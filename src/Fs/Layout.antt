-- ===== src/Fs/Layout.antt =====
-- question/kernel/fs.c: the blocks of a new disk: superblock, inodes, data.
pub mod Laws
use assembly_os.Prelude.{
  ℕ, ◌+◌, ◌-◌, ◌*◌, ◌/◌, ◌%◌, Option, none, some, List, ◌==◌, if◌then◌else◌, ltb, slt, add32,
  replicate, minus_one, ◌>>=◌,
}
use assembly_os.Fs.State.{Superblock}

abbrev pub max_inode_blocks : ℕ
max_inode_blocks = 6

abbrev pub max_number_of_inodes : ℕ
max_number_of_inodes = 1024

-- `sizeof(superblock_t)`: the words of the bit maps are 8 and 128.
abbrev pub size_of_superblock : ℕ
size_of_superblock = 564

-- `sizeof(inode_t)`
abbrev pub size_of_inode : ℕ
size_of_inode = 48

-- The absolute value of an `int`.
abbrev pub magnitude : ℕ → ℕ
magnitude a = if ltb a 2147483648 then a else 4294967296 - a

-- The quotient of two `int`s, cut towards 0. A division by 0 is undefined in C; it gives 0 here.
abbrev pub sdiv : ℕ → ℕ → ℕ
sdiv a b =
    let q = magnitude a / magnitude b in
    (if slt a 0
      then (if slt b 0 then q else 4294967296 - q)
      else (if slt b 0 then 4294967296 - q else q))
    % 4294967296

unfoldable pub blocks_occupied : ℕ → ℕ → ℕ
blocks_occupied block_size bytes = sdiv (add32 (add32 block_size bytes) minus_one) block_size

unfoldable pub id_to_addr : Superblock → ℕ → ℕ
id_to_addr superblock id =
    add32 superblock.inode_start
      (id * blocks_occupied superblock.disk_block_length size_of_inode % 4294967296)

-- The superblock that `new_superblock` makes, given the disk's two numbers.
unfoldable pub superblock_of : ℕ → ℕ → Superblock
superblock_of block_num block_len =
    let sixth = sdiv block_num max_inode_blocks in
    let inode_num = if slt max_number_of_inodes sixth then max_number_of_inodes else sixth in
    let inode_start = blocks_occupied block_len size_of_superblock in
    record {
      disk_block_num = block_num;
      disk_block_length = block_len;
      inode_num = inode_num;
      inode_start = inode_start;
      free_inode_bitmap = replicate 8 0;
      data_block_start =
          add32 (blocks_occupied block_len size_of_inode * inode_num % 4294967296) inode_start;
      free_block_bitmap = replicate 128 0;
    }
