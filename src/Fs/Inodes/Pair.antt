-- ===== src/Fs/Inodes/Pair.antt =====
-- Two inodes of a new disk do not disturb one another.
use assembly_os.Prelude.{ℕ, ◌+◌, ◌≤◌, ◌<◌, ◌≡◌, inl, refl, ap, ◌∙◌, sym, subst, arith, some, length}
use assembly_os.Fs.State.{Superblock, Inode}
use assembly_os.Fs.Volume.{Platform, Volume}
use assembly_os.Fs.Volume.Store.{IsStore}
use assembly_os.Fs.Layout.{blocks_occupied, id_to_addr, superblock_of}
use assembly_os.Fs.Layout.Laws.{superblock_of_lem, few_inodes}
use assembly_os.Fs.Bytes.Laws.{InodeIsValid}
use assembly_os.Fs.Blocks.Laws.{gather-same}
use assembly_os.Fs.Blocks.Writing.{SameLayout, SameLayout-trans}
use assembly_os.Fs.Blocks.Row.{Fits}
use assembly_os.Fs.Inodes.{read_inode, write_inode}
use assembly_os.Fs.Inodes.Laws.{IsPlaced, id_to_addr-same, write_inode-Stores, read_inode-stored}

IsPlaced-same :
    (len capacity : ℕ) (s t : Superblock) (id : ℕ)
    → SameLayout s t
    → IsPlaced len capacity s id
    → IsPlaced len capacity t id
IsPlaced-same len capacity s t id l h = record {
  described = l.same_length ∙ h.described;
  sized = record {
    inodes_size = ap length l.same_inodes ∙ h.sized.inodes_size;
    blocks_size = l.same_size ∙ h.sized.blocks_size;
  };
  superblock_fits = h.superblock_fits;
  inode_fits = subst (λ a. Fits len capacity a 48) (sym (id_to_addr-same s t id l)) h.inode_fits;
  behind = omega (arith, h.behind, id_to_addr-same s t id l);
  small_id = h.small_id;
}

few_here : (n len : ℕ) → n < 2147483648 → (superblock_of n len).inode_num ≤ 1024
unfolding superblock_of
few_here n len h = few_inodes n h

new_start : (n len : ℕ) → (superblock_of n len).inode_start ≡ blocks_occupied len 564
unfolding superblock_of
new_start n len = refl

placed :
    (n len capacity k : ℕ)
    → 0 < len
    → len ≤ 1024
    → capacity < 4294967296
    → k < 2147483648
    → blocks_occupied len 564 ≤ id_to_addr (superblock_of n len) k
    → id_to_addr (superblock_of n len) k + blocks_occupied len 48 ≤ capacity
    → id_to_addr (superblock_of n len) k + blocks_occupied len 48 ≤ 16384
    → IsPlaced len capacity (superblock_of n len) k
unfolding superblock_of
placed n len capacity k low high c small behind inside mapped = record {
  described = refl;
  sized = record { inodes_size = refl; blocks_size = refl };
  superblock_fits = record {
    len_low = low;
    len_high = high;
    few = omega arith;
    inside = omega (arith, behind, inside);
    addresses = c;
    mapped = omega (arith, behind, mapped);
  };
  inode_fits = record {
    len_low = low;
    len_high = high;
    few = omega arith;
    inside = inside;
    addresses = c;
    mapped = mapped;
  };
  behind = behind;
  small_id = small;
}

module _ {D : Type 0} {p : Platform D} {len capacity : ℕ} (store : IsStore p len capacity) where
  -- Two inodes that are placed apart, written one after the other.
  apart-read_back :
      (a b old : Inode) (v : Volume D)
      → IsPlaced len capacity v.superblock a.id
      → IsPlaced len capacity v.superblock b.id
      → InodeIsValid a
      → InodeIsValid b
      → id_to_addr v.superblock a.id + blocks_occupied len 48 ≤ id_to_addr v.superblock b.id
      → (w : Volume D) × (w' : Volume D) × (u : Volume D) × (u' : Volume D) × (write_inode p a v
          ≡ some (0, w))
        × (write_inode p b w ≡ some (0, w'))
        × (read_inode p a.id old w' ≡ some ((0, a), u))
        × (read_inode p b.id old w' ≡ some ((0, b), u'))
  apart-read_back a b old v ha hb ia ib apart =
      let (w, e, l, read, others) = write_inode-Stores store a v ha ia in
      let hb' = IsPlaced-same len capacity v.superblock w.superblock b.id l hb in
      let (w', e', l', read', others') = write_inode-Stores store b w hb' ib in
      let moved = id_to_addr-same v.superblock w.superblock b.id l in
      let kept =
        gather-same store w w' (blocks_occupied len 48) (id_to_addr v.superblock a.id) 48
          (λ c low high. others' c (omega (arith, ha.behind)) (inl (omega (arith, moved)))) in
      let (u, f) =
        read_inode-stored store v.superblock a old w' ha ia (SameLayout-trans l l') (kept ∙ read) in
      let (u', f') = read_inode-stored store w.superblock b old w' hb' ib l' read' in
      (w, w', u, u', e, e', f, f')

  -- On a new disk that stores and has fewer than 2 ^ 31 blocks of 1 to 1024 bytes, with 32-bit
  -- addresses that reach behind the inodes, which end before block 16384, where the map of blocks ends:
  -- two different inodes among those of the disk, of words and with six block numbers each, that are written one after the other, the lower id first, are both
  -- read back, each by its id, whatever the variable held.
  pub inodes_read_back :
      (n : ℕ) (a b old : Inode) (d : D)
      → n < 2147483648
      → 0 < len
      → len ≤ 1024
      → capacity < 4294967296
      → (superblock_of n len).data_block_start ≤ capacity
      → (superblock_of n len).data_block_start ≤ 16384
      → a.id < b.id
      → b.id < (superblock_of n len).inode_num
      → InodeIsValid a
      → InodeIsValid b
      → (w : Volume D) × (w' : Volume D) × (u : Volume D) × (u' : Volume D) × (write_inode p a
            (record { superblock = superblock_of n len; device = d })
          ≡ some (0, w))
        × (write_inode p b w ≡ some (0, w'))
        × (read_inode p a.id old w' ≡ some ((0, a), u))
        × (read_inode p b.id old w' ≡ some ((0, b), u'))
  inodes_read_back n a b old d h low high c data_low mapped l m ia ib =
      let (behind, first, apart, last) =
        superblock_of_lem n len a.id b.id h low (omega arith) l m in
      let few = few_here n len h in
      let start = new_start n len in
      apart-read_back a b old (record { superblock = superblock_of n len; device = d })
        (placed n len capacity a.id low high c (omega (arith, few)) (omega (arith, start, first))
          (omega (arith, last)) (omega (arith, mapped, last)))
        (placed n len capacity b.id low high c (omega (arith, few)) (omega (arith, start, first))
          (omega (arith, last)) (omega (arith, mapped, last)))
        ia ib apart
