-- ===== src/Fs/Blocks.antt =====
-- question/kernel/fs.c: data in a row of blocks, and the superblock at the start of the disk.
-- The flag `read` of `_rw_sequential_blocks` is a constant in each of its calls: its two cases are
-- two functions here.
pub mod Laws
pub mod Row
pub mod Writing
use assembly_os.Prelude.{
  ℕ, zero, suc, ◌+◌, ◌-◌, List, ◌++◌, ◌==◌, if◌then◌else◌, not, slt, add32, sub32, minus_one, take,
  drop, is_error,
}
use assembly_os.Fs.State.{Superblock}
use assembly_os.Fs.Bytes.{encode_superblock, decode_superblock}
use assembly_os.Fs.Layout.{blocks_occupied, size_of_superblock, superblock_of}
use assembly_os.Fs.Alloc.{allocate_block}
use assembly_os.Fs.Volume.{
  Platform, M, pure, ◌>>=◌, ◌>>◌, guard, get, modify, attempt, on_device, disk_read, disk_write,
}

-- The rounds of `for (addr = first; addr < first + blocks; addr++)`.
abbrev pub rounds : ℕ → ℕ → ℕ
rounds first blocks = add32 first blocks - first

abbrev pub chunk : ℕ → ℕ → ℕ
chunk bytes_left block_size = if slt bytes_left block_size then bytes_left else block_size

module _ {D : Type 0} (p : Platform D) where
  -- `buffer` is what lies behind the pointer `data`, before and after.
  unfoldable pub read_rounds : ℕ → ℕ → ℕ → List ℕ → ℕ → M D (ℕ × List ℕ)
  read_rounds zero block_size addr buffer bytes_left = pure (0, buffer)
  read_rounds (suc n) block_size addr buffer bytes_left = do
    let k = chunk bytes_left block_size
    let left = sub32 bytes_left k
    (status, bytes) ← disk_read p block_size addr k
    (if is_error status
        then pure (minus_one, bytes ++ drop k buffer)
        else (if slt 0 left
            then (do
              (r, rest) ← read_rounds n block_size (addr + 1) (drop k buffer) left
              pure (r, bytes ++ rest))
            else pure (0, bytes ++ drop k buffer)))

  unfoldable pub read_sequential_blocks : ℕ → ℕ → List ℕ → ℕ → M D (ℕ × List ℕ)
  unfolding read_rounds
  read_sequential_blocks block_size first_block_addr buffer bytes = do
    guard (not (block_size == 0))
    read_rounds (rounds first_block_addr (blocks_occupied block_size bytes)) block_size
        first_block_addr buffer bytes

  -- The data is read where it lies, which for the superblock changes with each allocation: `source`
  -- gives it for the present superblock, and `at` is how far the pointer `data` has moved.
  unfoldable pub write_rounds : ℕ → ℕ → ℕ → (Superblock → List ℕ) → ℕ → ℕ → M D ℕ
  write_rounds zero block_size addr source at bytes_left = pure 0
  write_rounds (suc n) block_size addr source at bytes_left = do
    let k = chunk bytes_left block_size
    let left = sub32 bytes_left k
    attempt (λ s. allocate_block p.wide s addr)
    superblock ← get
    status ← disk_write p block_size addr (drop at (source superblock)) k
    (if is_error status
        then pure minus_one
        else (if slt 0 left
            then write_rounds n block_size (addr + 1) source (at + k) left
            else pure 0))

  unfoldable pub write_sequential_blocks : ℕ → ℕ → (Superblock → List ℕ) → ℕ → M D ℕ
  unfolding write_rounds
  write_sequential_blocks block_size first_block_addr source bytes = do
    guard (not (block_size == 0))
    write_rounds (rounds first_block_addr (blocks_occupied block_size bytes)) block_size
        first_block_addr source 0 bytes

  unfoldable pub read_superblock : M D ℕ
  read_superblock = do
    block_len ← on_device p.disk.get_block_len
    superblock ← get
    (status, bytes) ←
        read_sequential_blocks block_len 0 (encode_superblock superblock) size_of_superblock
    modify (λ _. decode_superblock bytes)
    pure status

  -- 1 if the superblock is that of the disk, else 0.
  unfoldable pub valid_superblock : M D ℕ
  valid_superblock = do
    block_num ← on_device p.disk.get_block_num
    superblock ← get
    pure (if superblock.disk_block_num == block_num then 1 else 0)

  unfoldable pub write_superblock : M D ℕ
  write_superblock = do
    superblock ← get
    write_sequential_blocks superblock.disk_block_length 0 encode_superblock size_of_superblock

  unfoldable pub new_superblock : M D (Unit {0})
  new_superblock = do
    block_num ← on_device p.disk.get_block_num
    block_len ← on_device p.disk.get_block_len
    modify (λ _. superblock_of block_num block_len)
