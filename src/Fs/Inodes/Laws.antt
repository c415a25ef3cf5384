-- ===== src/Fs/Inodes/Laws.antt =====
-- An inode that is written to a disk that stores is read back.
use assembly_os.Prelude.{
  ℕ, ◌+◌, ◌*◌, ◌≤◌, ◌<◌, ◌≡◌, ◌⊎◌, inl, inr, refl, ap, ◌∙◌, arith, false, some, List, [], ◌∷◌, ◌++◌,
  is_error, drop, length, length-append, take-all,
}
use assembly_os.Fs.State.{Superblock, Inode}
use assembly_os.Fs.Volume.{Platform, Volume}
use assembly_os.Fs.Volume.Laws.{bind-eq}
use assembly_os.Fs.Volume.Store.{IsStore, block}
use assembly_os.Fs.Layout.{blocks_occupied, id_to_addr}
use assembly_os.Fs.Bytes.{encode_words, word_bytes, encode_inode, decode_inode, encode_superblock}
use assembly_os.Fs.Bytes.Laws.{InodeIsValid, decode_inode-encode_inode}
use assembly_os.Fs.Blocks.{write_sequential_blocks, read_sequential_blocks, write_superblock}
use assembly_os.Fs.Blocks.Laws.{gather, gather-same}
use assembly_os.Fs.Blocks.Writing.{SameLayout, SameLayout-trans, Stores}
use assembly_os.Fs.Blocks.Row.{Fits, write_sequential-Stores, read_sequential-gather}
use assembly_os.Fs.Inodes.{read_inode, write_inode}

length-encode_words : (ws : List ℕ) → length (encode_words ws) ≡ 4 * length ws
unfolding encode_words
length-encode_words [] = refl
length-encode_words (w ∷ ws) =
    omega (arith, length-append (word_bytes w) (encode_words ws), length-encode_words ws)

length-encode_inode : (i : Inode) → length i.blocks ≡ 6 → length (encode_inode i) ≡ 48
unfolding encode_inode
length-encode_inode i e = omega (
  arith,
  e,
  length-encode_words (
      i.id ∷ i.type ∷ i.size ∷ i.blocks_allocated ∷ i.creation_time ∷ i.modification_time
      ∷ i.blocks),
)

-- The bit maps have the sizes of their arrays.
pub record MapsAreSized (s : Superblock) : Type 0 where
  pub inodes_size : length s.free_inode_bitmap ≡ 8
  pub blocks_size : length s.free_block_bitmap ≡ 128

length-encode_superblock :
    (s t : Superblock) → MapsAreSized s → SameLayout s t → length (encode_superblock t) ≡ 564
unfolding encode_superblock
length-encode_superblock s t m l = omega (
  arith,
  m.inodes_size,
  m.blocks_size,
  ap length l.same_inodes,
  l.same_size,
  length-append t.free_inode_bitmap (t.data_block_start ∷ t.free_block_bitmap),
  length-encode_words (
      t.disk_block_num ∷ t.disk_block_length ∷ t.inode_num ∷ t.inode_start ∷ t.free_inode_bitmap
      ++ (t.data_block_start ∷ t.free_block_bitmap)),
)

pub id_to_addr-same :
    (s t : Superblock) (id : ℕ) → SameLayout s t → id_to_addr t id ≡ id_to_addr s id
unfolding id_to_addr
id_to_addr-same s t id l = rw (l.same_inode_start, l.same_length) refl

-- The superblock in memory describes a disk of `capacity` blocks of `len` bytes, on which the inode
-- lies behind the superblock.
pub record IsPlaced (len capacity : ℕ) (s : Superblock) (id : ℕ) : Type 0 where
  pub described : s.disk_block_length ≡ len
  pub sized : MapsAreSized s
  pub superblock_fits : Fits len capacity 0 564
  pub inode_fits : Fits len capacity (id_to_addr s id) 48
  pub behind : blocks_occupied len 564 ≤ id_to_addr s id
  pub small_id : id < 2147483648

module _ {D : Type 0} {p : Platform D} {len capacity : ℕ} (store : IsStore p len capacity) where
  write_superblock-Stores :
      (s : Superblock) (v : Volume D)
      → SameLayout s v.superblock
      → MapsAreSized s
      → s.disk_block_length ≡ len
      → Fits len capacity 0 564
      → (w : Volume D) × (write_superblock p v ≡ some (0, w))
        × Stores store v w 0 (blocks_occupied len 564)
  unfolding write_superblock
  write_superblock-Stores s v l m e f =
      let (w, written, stores, read) =
        write_sequential-Stores store 0 564 encode_superblock v f (l.same_size ∙ m.blocks_size)
          (λ t k. omega (arith, length-encode_superblock s t m (SameLayout-trans l k))) in
      let size : v.superblock.disk_block_length ≡ len = l.same_length ∙ e in
      (w, ap (λ n. write_sequential_blocks p n 0 encode_superblock 564 v) size ∙ written, stores)

  pub write_inode-Stores :
      (inode : Inode) (v : Volume D)
      → IsPlaced len capacity v.superblock inode.id
      → InodeIsValid inode
      → (w : Volume D) × (write_inode p inode v ≡ some (0, w))
        × SameLayout v.superblock w.superblock
        × (gather store w (blocks_occupied len 48) (id_to_addr v.superblock inode.id) 48
            ≡ encode_inode inode)
        × ((b : ℕ)
            → blocks_occupied len 564 ≤ b
            → (b < id_to_addr v.superblock inode.id)
              ⊎ (id_to_addr v.superblock inode.id + blocks_occupied len 48 ≤ b)
            → block store w b ≡ block store v b)
  unfolding write_inode
  write_inode-Stores inode v h i =
      let addr = id_to_addr v.superblock inode.id in
      let size = length-encode_inode inode i.blocks_size in
      let (v1, e, stores, read) =
        write_sequential-Stores store addr 48 (λ _. encode_inode inode) v h.inode_fits
          h.sized.blocks_size (λ s l. omega (arith, size)) in
      let (w, e', stores') =
        write_superblock-Stores v.superblock v1 stores.layout h.sized h.described
          h.superblock_fits in
      (
        w,
        bind-eq
              (write_sequential_blocks p v.superblock.disk_block_length addr
                (λ _. encode_inode inode) 48)
              _ v _
              (ap (λ n. write_sequential_blocks p n addr (λ _. encode_inode inode) 48 v) h.described
                ∙ e)
            ∙ e',
        SameLayout-trans stores.layout stores'.layout,
        gather-same store v1 w (blocks_occupied len 48) addr 48
              (λ a low high. stores'.above a (omega (arith, h.behind)))
            ∙ (read (encode_inode inode) (λ s. refl) ∙ take-all 48 (encode_inode inode) size),
        (λ b behind apart. elim apart [
          | inl low ↦ stores'.above b (omega (arith, behind)) ∙ stores.below b low
          | inr high ↦ stores'.above b (omega (arith, behind)) ∙ stores.above b high
        ]),
      )

  -- An inode whose bytes lie in its blocks is read, with a superblock of the same layout.
  pub read_inode-stored :
      (s : Superblock) (inode old : Inode) (w : Volume D)
      → IsPlaced len capacity s inode.id
      → InodeIsValid inode
      → SameLayout s w.superblock
      → gather store w (blocks_occupied len 48) (id_to_addr s inode.id) 48 ≡ encode_inode inode
      → (u : Volume D) × (read_inode p inode.id old w ≡ some ((0, inode), u))
  unfolding read_inode
  read_inode-stored s inode old w h i l read =
      let addr = id_to_addr s inode.id in
      let (u, e', same, kept) =
        read_sequential-gather store addr 48 (encode_inode old) w h.inode_fits in
      let valid : is_error inode.id ≡ false = ground (arith, h.small_id) in
      let size : w.superblock.disk_block_length ≡ len = l.same_length ∙ h.described in
      let found : read_sequential_blocks p w.superblock.disk_block_length
            (id_to_addr w.superblock inode.id) (encode_inode old) 48 w
          ≡ some (
            (0, gather store w (blocks_occupied len 48) addr 48 ++ drop 48 (encode_inode old)),
            u,
          ) =
        ap
          (λ n.
            read_sequential_blocks p n (id_to_addr w.superblock inode.id) (encode_inode old) 48 w)
          size
        ∙ (ap (λ a. read_sequential_blocks p len a (encode_inode old) 48 w)
              (id_to_addr-same s w.superblock inode.id l)
            ∙ e') in
      (
        u,
        rw valid (
            bind-eq
              (read_sequential_blocks p w.superblock.disk_block_length
                (id_to_addr w.superblock inode.id) (encode_inode old) 48)
              _ w _ found
            ∙ ap (λ j. some ((0, j), u))
                (ap (λ bs. decode_inode (bs ++ drop 48 (encode_inode old))) read
                  ∙ decode_inode-encode_inode inode (drop 48 (encode_inode old)) i)),
      )

  -- On a disk that stores blocks of 1 to 1024 bytes under 32-bit addresses, where the superblock in
  -- memory describes the disk, its bit maps have their sizes, and the inode lies behind the superblock
  -- and on the disk: a write of an inode of words, with an id that is not negative and six block
  -- numbers, succeeds, and a read of the inode with its id then succeeds and gives it back, whatever
  -- the variable held. The superblock in memory keeps all but its map of free blocks.
  pub read_inode-write_inode :
      (inode old : Inode) (v : Volume D)
      → IsPlaced len capacity v.superblock inode.id
      → InodeIsValid inode
      → (w : Volume D) × (u : Volume D) × (write_inode p inode v ≡ some (0, w))
        × SameLayout v.superblock w.superblock
        × (read_inode p inode.id old w ≡ some ((0, inode), u))
  read_inode-write_inode inode old v h i =
      let (w, e, l, read, others) = write_inode-Stores inode v h i in
      let (u, e') = read_inode-stored v.superblock inode old w h i l read in (w, u, e, l, e')
