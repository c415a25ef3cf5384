-- ===== src/Tests/Store.antt =====
-- The theorems on the disk's contents at a disk in memory.
use mathlib.Core.Bool.{false≢true}
use assembly_os.Prelude.{
  ℕ, ◌≡◌, refl, Bool, true, ◌&&◌, Bool-cases, inl, inr, ltb, ltb→lt, arith, some, List, [], ◌∷◌,
  ◌++◌, replicate,
}
use assembly_os.Fs.State.{Superblock, Inode}
use assembly_os.Fs.Bytes.Laws.{IsWords, InodeIsValid}
use assembly_os.Fs.Volume.{Volume}
use assembly_os.Fs.Layout.{blocks_occupied, superblock_of, id_to_addr}
use assembly_os.Fs.Blocks.{read_sequential_blocks, write_sequential_blocks}
use assembly_os.Fs.Blocks.Writing.{Stores}
use assembly_os.Fs.Blocks.Row.{Fits, read-write_sequential_blocks}
use assembly_os.Fs.Inodes.{read_inode, write_inode, new_inode}
use assembly_os.Fs.Inodes.Pair.{inodes_read_back}
use assembly_os.Fs.Inodes.Laws.{IsPlaced}
use assembly_os.Tests.Ram.{Blocks, platform, ram_store}

-- A new disk of 64 blocks of 16 bytes, of which the superblock takes 36 and each inode 3.
abbrev new_disk : Superblock
new_disk = superblock_of 64 16

abbrev blank : Volume Blocks
blank = record { superblock = new_disk; device = λ a. [] }

abbrev an_inode : Inode
an_inode = record (new_inode 2) {
  type = 1;
  size = 300;
  blocks_allocated = 1;
  blocks = 70 ∷ replicate 5 0;
}

abbrev are_words : List ℕ → Bool
are_words [] = true
are_words (w ∷ ws) = ltb w 4294967296 && are_words ws

IsWords-test : (ws : List ℕ) → are_words ws ≡ true → IsWords ws
IsWords-test [] h = tt
IsWords-test (w ∷ ws) h = elim (Bool-cases (ltb w 4294967296)) [
  | inl small ↦ (ltb→lt w 4294967296 small, IsWords-test ws (rw small at h))
  | inr large ↦ absurd (false≢true (rw large at h))
]

an_inode-IsValid : InodeIsValid an_inode
unfolding new_inode
an_inode-IsValid = record {
  words = IsWords-test (2 ∷ 1 ∷ 300 ∷ 1 ∷ 0 ∷ 0 ∷ 70 ∷ replicate 5 0) refl;
  blocks_size = refl;
}

-- Five bytes in blocks of two.
abbrev contents : List ℕ
contents = 5 ∷ 6 ∷ 7 ∷ 8 ∷ 9 ∷ []

contents-Fits : Fits 2 64 50 5
unfolding blocks_occupied
contents-Fits = record {
  len_low = omega arith;
  len_high = omega arith;
  few = omega arith;
  inside = omega arith;
  addresses = omega arith;
  mapped = omega arith;
}

read-write_sequential_blocks_example :
    (w : Volume Blocks) × (u : Volume Blocks) × (write_sequential_blocks platform 2 50
        (λ _. contents)
        5
        blank
      ≡ some (0, w))
    × Stores (ram_store 2 64) blank w 50 (blocks_occupied 2 5)
    × (read_sequential_blocks platform 2 50 (replicate 6 1) 5 w
        ≡ some ((0, contents ++ (1 ∷ [])), u))
unfolding superblock_of
read-write_sequential_blocks_example =
    read-write_sequential_blocks (ram_store 2 64) 50 contents (replicate 6 1) blank contents-Fits
      refl

an_inode-IsPlaced : IsPlaced 16 64 new_disk 2
unfolding superblock_of blocks_occupied id_to_addr
an_inode-IsPlaced = record {
  described = refl;
  sized = record { inodes_size = refl; blocks_size = refl };
  superblock_fits = record {
    len_low = omega arith;
    len_high = omega arith;
    few = omega arith;
    inside = omega arith;
    addresses = omega arith;
    mapped = omega arith;
  };
  inode_fits = record {
    len_low = omega arith;
    len_high = omega arith;
    few = omega arith;
    inside = omega arith;
    addresses = omega arith;
    mapped = omega arith;
  };
  behind = omega arith;
  small_id = omega arith;
}

new_inode-IsValid : InodeIsValid (new_inode 1)
unfolding new_inode
new_inode-IsValid = record { words = IsWords-test (1 ∷ replicate 11 0) refl; blocks_size = refl }

inodes_read_back_example :
    (w : Volume Blocks) × (w' : Volume Blocks) × (u : Volume Blocks) × (u' : Volume Blocks)
    × (write_inode platform (new_inode 1) blank ≡ some (0, w))
    × (write_inode platform an_inode w ≡ some (0, w'))
    × (read_inode platform 1 (new_inode 0) w' ≡ some ((0, new_inode 1), u))
    × (read_inode platform 2 (new_inode 0) w' ≡ some ((0, an_inode), u'))
unfolding new_inode superblock_of blocks_occupied
inodes_read_back_example =
    inodes_read_back (ram_store 16 66) 64 (new_inode 1) an_inode (new_inode 0) (λ a. [])
      (omega arith) (omega arith) (omega arith) (omega arith) (omega arith) (omega arith)
      (omega arith) (omega arith) new_inode-IsValid an_inode-IsValid
