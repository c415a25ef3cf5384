-- ===== src/Fs/Blocks/Row.antt =====
-- Data that is written to a row of blocks is read back.
use assembly_os.Prelude.{
  ℕ, ◌+◌, ◌≤◌, ◌<◌, ◌≡◌, refl, ap, ◌∙◌, arith, false, some, List, ◌++◌, ◌==◌, take, drop, length,
  take-all,
}
use assembly_os.Fs.State.{Superblock}
use assembly_os.Fs.Volume.{Platform, Volume}
use assembly_os.Fs.Volume.Store.{IsStore, block}
use assembly_os.Fs.Layout.{blocks_occupied}
use assembly_os.Fs.Layout.Laws.{blocks_occupied_lem}
use assembly_os.Fs.Blocks.{rounds, read_sequential_blocks, write_sequential_blocks}
use assembly_os.Fs.Blocks.Laws.{gather, read_rounds-gather}
use assembly_os.Fs.Blocks.Writing.{SameLayout, Stores, write_rounds-Stores}

rounds-small : (first n : ℕ) → first + n < 4294967296 → rounds first n ≡ n
rounds-small first n h = omega arith

-- The blocks from `first` on that hold some bytes, fewer than a million, lie on the disk
-- and in the map of blocks.
pub record Fits (len capacity first bytes : ℕ) : Type 0 where
  pub len_low : 0 < len
  pub len_high : len ≤ 1024
  pub few : bytes < 1000000
  pub inside : first + blocks_occupied len bytes ≤ capacity
  pub addresses : capacity < 4294967296
  pub mapped : first + blocks_occupied len bytes ≤ 16384

module _ {D : Type 0} {p : Platform D} {len capacity : ℕ} (store : IsStore p len capacity) where
  pub write_sequential-Stores :
      (first bytes : ℕ) (source : Superblock → List ℕ) (v : Volume D)
      → Fits len capacity first bytes
      → length v.superblock.free_block_bitmap ≡ 128
      → ((s : Superblock) → SameLayout v.superblock s → bytes ≤ length (source s))
      → (w : Volume D) × (write_sequential_blocks p len first source bytes v ≡ some (0, w))
        × Stores store v w first (blocks_occupied len bytes)
        × ((contents : List ℕ)
            → ((s : Superblock) → source s ≡ contents)
            → gather store w (blocks_occupied len bytes) first bytes ≡ take bytes contents)
  unfolding write_sequential_blocks
  write_sequential-Stores first bytes source v f sized long =
      let n = blocks_occupied len bytes in
      let (enough, tight) =
        blocks_occupied_lem len bytes f.len_low (omega (arith, f.len_high)) f.few in
      let (w, e, stores, read) =
        write_rounds-Stores store n first 0 bytes source v f.len_high (omega (arith, f.few)) enough
          f.inside sized f.mapped (λ s l. omega (arith, long s l)) in
      let some_bytes : (len == 0) ≡ false = ground (arith, f.len_low) in
      (
        w,
        rw (some_bytes, rounds-small first n (omega (arith, f.inside, f.addresses))) e,
        stores,
        read,
      )

  pub read_sequential-gather :
      (first bytes : ℕ) (buffer : List ℕ) (v : Volume D)
      → Fits len capacity first bytes
      → (w : Volume D) × (read_sequential_blocks p len first buffer bytes v
          ≡ some
              ((0, gather store v (blocks_occupied len bytes) first bytes ++ drop bytes buffer), w))
        × (w.superblock ≡ v.superblock)
        × ((a : ℕ) → block store w a ≡ block store v a)
  unfolding read_sequential_blocks
  read_sequential-gather first bytes buffer v f =
      let n = blocks_occupied len bytes in
      let (enough, tight) =
        blocks_occupied_lem len bytes f.len_low (omega (arith, f.len_high)) f.few in
      let (w, e, same, kept) =
        read_rounds-gather store n first bytes buffer v f.len_high (omega (arith, f.few)) enough
          f.inside in
      let some_bytes : (len == 0) ≡ false = ground (arith, f.len_low) in
      (
        w,
        rw (some_bytes, rounds-small first n (omega (arith, f.inside, f.addresses))) e,
        same,
        kept,
      )

  -- On a disk that stores blocks of 1 to 1024 bytes under 32-bit addresses, some bytes, fewer than a
  -- million, that are written to blocks that lie on the disk and below 16384, the blocks that the map
  -- of the superblock in memory has its 128 words for, are written with success, and a read of as
  -- many bytes from the same address then succeeds and gives these bytes, with what the buffer held
  -- behind them. No other block changes, and the superblock in memory only its map of free blocks.
  pub read-write_sequential_blocks :
      (first : ℕ) (contents buffer : List ℕ) (v : Volume D)
      → Fits len capacity first (length contents)
      → length v.superblock.free_block_bitmap ≡ 128
      → (w : Volume D) × (u : Volume D) × (write_sequential_blocks p len first
            (λ _. contents)
            (length contents)
            v
          ≡ some (0, w))
        × Stores store v w first (blocks_occupied len (length contents))
        × (read_sequential_blocks p len first buffer (length contents) w
            ≡ some ((0, contents ++ drop (length contents) buffer), u))
  read-write_sequential_blocks first contents buffer v f sized =
      let n = length contents in
      let (w, e, stores, read) =
        write_sequential-Stores first n (λ _. contents) v f sized (λ s l. omega arith) in
      let (u, e', same, kept) = read_sequential-gather first n buffer w f in
      let back = read contents (λ s. refl) ∙ take-all n contents refl in
      (w, u, e, stores, e' ∙ ap (λ bs. some ((0, bs ++ drop n buffer), u)) back)
