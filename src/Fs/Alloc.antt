-- ===== src/Fs/Alloc.antt =====
-- question/kernel/fs.c: which data blocks and inodes are taken, by the maps of the superblock.
-- `none` is an access outside a map; `wide` is the value of `1 << n` for n of at least 32 (Fs/Bitmap).
pub mod Laws
use assembly_os.Prelude.{
  ℕ, zero, suc, ◌+◌, ◌-◌, Option, none, some, ◌>>=◌, List, if◌then◌else◌, ltb, minus_one,
}
use assembly_os.Fs.State.{Superblock}
use assembly_os.Fs.Bitmap.{set_bit, clear_bit, get_bit}

module _ (wide : ℕ → ℕ) where
  unfoldable pub allocate_block : Superblock → ℕ → Option Superblock
  allocate_block superblock addr = do
    words ← set_bit wide superblock.free_block_bitmap addr
    some (record superblock { free_block_bitmap = words })

  unfoldable pub unallocate_block : Superblock → ℕ → Option Superblock
  unallocate_block superblock addr = do
    words ← clear_bit wide superblock.free_block_bitmap addr
    some (record superblock { free_block_bitmap = words })

  unfoldable pub allocate_inode : Superblock → ℕ → Option Superblock
  allocate_inode superblock id = do
    words ← set_bit wide superblock.free_inode_bitmap id
    some (record superblock { free_inode_bitmap = words })

  unfoldable pub unallocate_inode : Superblock → ℕ → Option Superblock
  unallocate_inode superblock id = do
    words ← clear_bit wide superblock.free_inode_bitmap id
    some (record superblock { free_inode_bitmap = words })

  -- The loops of `free_data_block` and `free_inode_id`: `n` rounds from number `i`, and what is
  -- returned after the last.
  search_free : ℕ → ℕ → List ℕ → ℕ → Option ℕ
  search_free zero i words missing = some missing
  search_free (suc n) i words missing =
      let rest = search_free n (i + 1) words missing in
      elim (get_bit wide words i) [ none ↦ none | some taken ↦ if taken then rest else some i ]

  unfoldable pub free_data_block : Superblock → Option ℕ
  unfolding search_free
  free_data_block superblock =
      search_free (superblock.disk_block_num - superblock.data_block_start)
        superblock.data_block_start superblock.free_block_bitmap 0

  -- No round is run for a negative `inode_num`.
  unfoldable pub free_inode_id : Superblock → Option ℕ
  unfolding search_free
  free_inode_id superblock =
      search_free (if ltb superblock.inode_num 2147483648 then superblock.inode_num else 0) 0
        superblock.free_inode_bitmap minus_one
