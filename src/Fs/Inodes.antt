-- ===== src/Fs/Inodes.antt =====
-- question/kernel/fs.c: inodes on the disk, and the data that an inode's blocks hold.
pub mod Laws
pub mod Pair
use assembly_os.Prelude.{
  ℕ, zero, suc, ◌+◌, ◌/◌, ◌%◌, Option, none, some, List, ◌++◌, ◌==◌, if◌then◌else◌, not, ltb, slt,
  add32, sub32, minus_one, get_or, set, drop, replicate, is_error,
}
use assembly_os.Fs.State.{Superblock, Inode, FileDescriptorTable}
use assembly_os.Fs.Bytes.{encode_inode, decode_inode}
use assembly_os.Fs.Layout.{blocks_occupied, id_to_addr, size_of_inode, max_inode_blocks}
use assembly_os.Fs.Alloc.{
  allocate_block, unallocate_block, allocate_inode, unallocate_inode, free_data_block,
  free_inode_id,
}
use assembly_os.Fs.Descriptors.{fdid_to_fd, descriptor}
use assembly_os.Fs.Blocks.{chunk, read_sequential_blocks, write_sequential_blocks, write_superblock}
use assembly_os.Fs.Volume.{
  Platform, M, pure, ◌>>=◌, ◌>>◌, guard, get, attempt, look, local, disk_read, disk_write,
}

unfoldable pub new_inode : ℕ → Inode
new_inode id = record {
  id = id;
  type = 0;
  size = 0;
  blocks_allocated = 0;
  creation_time = 0;
  modification_time = 0;
  blocks = replicate max_inode_blocks 0;
}

-- The part of `_rw_inode` before its loop: an inode with room for `num_of_blocks`.
abbrev pub grow : Inode → ℕ → Inode
grow inode num_of_blocks =
    if slt inode.blocks_allocated num_of_blocks
    then record inode { blocks_allocated = num_of_blocks }
    else inode

-- The rounds of `for (i = block_id; i < blocks_allocated; i++)`.
abbrev pub inode_rounds : ℕ → ℕ → ℕ
inode_rounds block_id blocks_allocated =
    if slt block_id blocks_allocated then sub32 blocks_allocated block_id else 0

module _ {D : Type 0} (p : Platform D) where
  -- A variable of type `inode_t` that was not assigned.
  abbrev pub local_inode : M D Inode
  local_inode = do bytes ← local p size_of_inode; pure (decode_inode bytes)

  -- `inode` is what the variable held before; the new content is returned.
  unfoldable pub read_inode : ℕ → Inode → M D (ℕ × Inode)
  read_inode id inode = if is_error id then pure (minus_one, inode) else (do
    superblock ← get
    (status, bytes) ←
        read_sequential_blocks p superblock.disk_block_length (id_to_addr superblock id)
          (encode_inode inode) size_of_inode
    pure (status, decode_inode bytes))

  unfoldable pub write_inode : Inode → M D ℕ
  write_inode inode = do
    superblock ← get
    status ←
        write_sequential_blocks p superblock.disk_block_length (id_to_addr superblock inode.id)
          (λ _. encode_inode inode) size_of_inode
    (if is_error status then pure minus_one else write_superblock p)

  unfoldable pub free_inode : Inode → M D (ℕ × Inode)
  free_inode inode = do id ← look (free_inode_id p.wide); read_inode id inode

  -- Only `id`, `type` and `creation_time` are assigned: the other fields are what the variable held.
  unfoldable pub create_inode_type : ℕ → M D ℕ
  create_inode_type inode_type = do
    inode ← local_inode
    id ← look (free_inode_id p.wide)
    (if is_error id then pure minus_one else (do
      attempt (λ s. allocate_inode p.wide s id)
      status ← write_inode (record inode { id = id; type = inode_type; creation_time = 1 })
      pure (if is_error status then minus_one else id)))

  -- The loop of `delete_inode`; a round past the sixth reads outside the array.
  unallocate_blocks : ℕ → ℕ → List ℕ → M D (Unit {0})
  unallocate_blocks zero i blocks = pure tt
  unallocate_blocks (suc n) i blocks = do
    guard (ltb i max_inode_blocks)
    attempt (λ s. unallocate_block p.wide s (get_or blocks i 0))
    unallocate_blocks n (i + 1) blocks

  unfoldable pub delete_inode : Inode → M D ℕ
  unfolding unallocate_blocks
  delete_inode inode = do
    unallocate_blocks (inode_rounds 0 inode.blocks_allocated) 0 inode.blocks
    attempt (λ s. unallocate_inode p.wide s inode.id)
    write_inode (new_inode inode.id)

  unfoldable pub fdid_to_inode : FileDescriptorTable → ℕ → Inode → M D (ℕ × Inode)
  fdid_to_inode t file_descriptor_id inode = elim (fdid_to_fd t file_descriptor_id) [
    | none ↦ pure (minus_one, inode)
    | some i ↦ read_inode (descriptor t i).inode_id inode
  ]

  -- The loop of `_rw_inode` when it reads. The offset is that of the first round, then 0; a block
  -- past the sixth lies outside the array.
  unfoldable pub read_blocks : ℕ → ℕ → ℕ → Inode → List ℕ → ℕ → M D (ℕ × List ℕ)
  read_blocks zero i offset inode buffer bytes_left = pure (0, buffer)
  read_blocks (suc n) i offset inode buffer bytes_left = do
    guard (ltb i max_inode_blocks)
    superblock ← get
    let k = chunk bytes_left (sub32 superblock.disk_block_length offset)
    let left = sub32 bytes_left k
    (status, bytes) ←
        disk_read p superblock.disk_block_length (add32 (get_or inode.blocks i 0) offset) k
    (if is_error status
        then pure (minus_one, bytes ++ drop k buffer)
        else (if slt 0 left
            then (do
              (r, rest) ← read_blocks n (i + 1) 0 inode (drop k buffer) left
              pure (r, bytes ++ rest))
            else pure (0, bytes ++ drop k buffer)))

  -- The status and the buffer. The inode that the source changes is a local variable of the callers,
  -- which do not use it again, and so is the file pointer.
  unfoldable pub read_from_inode : Inode → ℕ → List ℕ → ℕ → M D (ℕ × List ℕ)
  unfolding read_blocks
  read_from_inode inode file_pointer buffer data_size = do
    superblock ← get
    let len = superblock.disk_block_length
    guard (not (len == 0))
    let num_of_blocks = blocks_occupied len data_size
    (if slt max_inode_blocks num_of_blocks
        then pure (minus_one, buffer)
        else read_blocks
            (inode_rounds (file_pointer / len) (grow inode num_of_blocks).blocks_allocated)
            (file_pointer / len) (file_pointer % len) inode buffer data_size)

  -- The loop of `_rw_inode` when it writes.
  unfoldable pub write_blocks : ℕ → ℕ → ℕ → Inode → List ℕ → ℕ → M D (ℕ × Inode)
  write_blocks zero i offset inode bytes bytes_left = pure (0, inode)
  write_blocks (suc n) i offset inode bytes bytes_left = do
    guard (ltb i max_inode_blocks)
    superblock ← get
    let len = superblock.disk_block_length
    block ← look (free_data_block p.wide)
    let addr = add32 block offset
    let k = chunk bytes_left (sub32 len offset)
    let left = sub32 bytes_left k
    let inode' = record inode { blocks = set inode.blocks i addr }
    attempt (λ s. allocate_block p.wide s addr)
    status ← disk_write p len addr bytes k
    (if is_error status
        then pure (minus_one, inode')
        else (if slt 0 left
            then write_blocks n (i + 1) 0 inode' (drop k bytes) left
            else pure (0, inode')))

  unfoldable pub write_to_inode : Inode → ℕ → List ℕ → ℕ → M D ℕ
  unfolding write_blocks
  write_to_inode inode file_pointer bytes data_size = do
    superblock ← get
    let len = superblock.disk_block_length
    guard (not (len == 0))
    let num_of_blocks = blocks_occupied len data_size
    let grown = grow inode num_of_blocks
    (if slt max_inode_blocks num_of_blocks then pure minus_one else (do
      (status, written) ←
          write_blocks (inode_rounds (file_pointer / len) grown.blocks_allocated)
            (file_pointer / len) (file_pointer % len) grown bytes data_size
      (if is_error status
          then pure minus_one
          else write_inode (record written { size = data_size }))))
