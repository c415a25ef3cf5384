-- ===== src/Fs/Blocks/Writing.antt =====
-- What the writing of a row of blocks does to a disk that stores, and to the superblock in memory.
use assembly_os.Prelude.{
  ℕ, zero, suc, ◌+◌, ◌-◌, ◌*◌, ◌≤◌, ◌<◌, ◌≡◌, inl, inr, refl, ap, ◌∙◌, sym, subst, arith, true,
  Bool-cases, some, List, ◌++◌, ltb, take, drop, length, length-set, length-drop, take-drop,
  drop-drop, ltb→le,
}
use assembly_os.Fs.State.{Superblock}
use assembly_os.Fs.Bitmap.{set_bit, marked, word_offset}
use assembly_os.Fs.Volume.{Platform, Volume, attempt, disk_write}
use assembly_os.Fs.Volume.Laws.{bind-eq}
use assembly_os.Fs.Volume.Store.{IsStore, block, Written, disk_write-stores}
use assembly_os.Fs.Alloc.{allocate_block}
use assembly_os.Fs.Blocks.{write_rounds}
use assembly_os.Fs.Blocks.Laws.{
  part, chunk-part, part-rest, part_le, positive, part-enough, gather, gather-none,
}

-- The superblocks differ in the map of the free blocks at most, whose size is the same.
pub record SameLayout (s t : Superblock) : Type 0 where
  pub same_num : t.disk_block_num ≡ s.disk_block_num
  pub same_length : t.disk_block_length ≡ s.disk_block_length
  pub same_inode_num : t.inode_num ≡ s.inode_num
  pub same_inode_start : t.inode_start ≡ s.inode_start
  pub same_inodes : t.free_inode_bitmap ≡ s.free_inode_bitmap
  pub same_data : t.data_block_start ≡ s.data_block_start
  pub same_size : length t.free_block_bitmap ≡ length s.free_block_bitmap

pub SameLayout-refl : (s : Superblock) → SameLayout s s
SameLayout-refl s = record {
  same_num = refl;
  same_length = refl;
  same_inode_num = refl;
  same_inode_start = refl;
  same_inodes = refl;
  same_data = refl;
  same_size = refl;
}

pub SameLayout-trans : {s t u : Superblock} → SameLayout s t → SameLayout t u → SameLayout s u
SameLayout-trans a b = record {
  same_num = b.same_num ∙ a.same_num;
  same_length = b.same_length ∙ a.same_length;
  same_inode_num = b.same_inode_num ∙ a.same_inode_num;
  same_inode_start = b.same_inode_start ∙ a.same_inode_start;
  same_inodes = b.same_inodes ∙ a.same_inodes;
  same_data = b.same_data ∙ a.same_data;
  same_size = b.same_size ∙ a.same_size;
}

-- The superblock after the allocation of a block of the map.
abbrev allocated : (ℕ → ℕ) → Superblock → ℕ → Superblock
allocated wide s addr = record s { free_block_bitmap = marked wide s.free_block_bitmap addr }

allocate_block_inside :
    (wide : ℕ → ℕ) (s : Superblock) (addr : ℕ)
    → length s.free_block_bitmap ≡ 128
    → addr < 16384
    → allocate_block wide s addr ≡ some (allocated wide s addr)
unfolding allocate_block set_bit
allocate_block_inside wide s addr e h =
    let inside : ltb (word_offset addr) (length s.free_block_bitmap) ≡ true =
      rw e (ground (arith, within addr h)) in
    rw inside refl
  where
    within : (a : ℕ) → a < 16384 → word_offset a < 128
    within a h = omega arith

allocated-SameLayout :
    (wide : ℕ → ℕ) (s : Superblock) (addr : ℕ) → SameLayout s (allocated wide s addr)
unfolding marked
allocated-SameLayout wide s addr = record {
  same_num = refl;
  same_length = refl;
  same_inode_num = refl;
  same_inode_start = refl;
  same_inodes = refl;
  same_data = refl;
  same_size = length-set _ _ _;
}

-- The bytes that are left, put together from a part of them and the rest.
gathered :
    (k left : ℕ) (ys front rest : List ℕ)
    → k ≤ left
    → front ≡ take k ys
    → rest ≡ take (left - k) (drop k ys)
    → front ++ rest ≡ take left ys
gathered k left ys front rest h e g =
    let all : k + (left - k) ≡ left = omega arith in
    rw (e, g) (take-drop k (left - k) ys ∙ ap (λ m. take m ys) all)

module _ {D : Type 0} {p : Platform D} {len capacity : ℕ} (store : IsStore p len capacity) where
  -- Only the blocks from `addr` on, `n` of them, may have changed.
  pub record Stores (v w : Volume D) (addr n : ℕ) : Type 0 where
    pub layout : SameLayout v.superblock w.superblock
    pub below : (b : ℕ) → b < addr → block store w b ≡ block store v b
    pub above : (b : ℕ) → addr + n ≤ b → block store w b ≡ block store v b

  pub Stores-refl : (v : Volume D) (addr n : ℕ) → Stores v v addr n
  Stores-refl v addr n = record {
    layout = SameLayout-refl v.superblock;
    below = λ b low. refl;
    above = λ b high. refl;
  }

  none_gathered :
      (w : Volume D) (n addr left : ℕ) (ys : List ℕ)
      → left ≡ 0
      → gather store w n addr left ≡ take left ys
  none_gathered w n addr left ys e =
      ap (gather store w n addr) e ∙ (gather-none store w n addr ∙ ap (λ m. take m ys) (sym e))

  -- The superblock and the disk at the start of a round of the loop.
  abbrev at_round : Volume D → ℕ → Volume D
  at_round v addr = record v { superblock = allocated p.wide v.superblock addr }

  -- One round.
  one_stored :
      (v v1 : Volume D) (addr n k : ℕ) (x : List ℕ)
      → Written store (at_round v addr) v1 addr k x
      → Stores v v1 addr (suc n)
  one_stored v v1 addr n k x h = record {
    layout =
        subst (SameLayout v.superblock) (sym h.same_superblock)
          (allocated-SameLayout p.wide v.superblock addr);
    below = λ b low. h.others b (λ e. absurd (omega arith));
    above = λ b high. h.others b (λ e. absurd (omega arith));
  }

  both_stored :
      (v v1 w : Volume D) (addr n : ℕ)
      → Stores v v1 addr (suc n)
      → Stores v1 w (addr + 1) n
      → Stores v w addr (suc n)
  both_stored v v1 w addr n g h = record {
    layout = SameLayout-trans g.layout h.layout;
    below = λ b low. h.below b (omega arith) ∙ g.below b low;
    above = λ b high. h.above b (omega arith) ∙ g.above b high;
  }

  pub write_rounds-Stores :
      (n addr at left : ℕ) (source : Superblock → List ℕ) (v : Volume D)
      → len ≤ 1024
      → left < 2147483648
      → left ≤ n * len
      → addr + n ≤ capacity
      → length v.superblock.free_block_bitmap ≡ 128
      → addr + n ≤ 16384
      → ((s : Superblock) → SameLayout v.superblock s → at + left ≤ length (source s))
      → (w : Volume D) × (write_rounds p n len addr source at left v ≡ some (0, w))
        × Stores v w addr n
        × ((bytes : List ℕ)
            → ((s : Superblock) → source s ≡ bytes)
            → gather store w n addr left ≡ take left (drop at bytes))
  unfolding write_rounds gather
  write_rounds-Stores zero addr at left source v small few enough inside sized mapped long =
      let none_left : left ≡ 0 = omega arith in
      (v, refl, Stores-refl v addr zero, (λ bytes same. rw none_left refl))
  write_rounds-Stores (suc n) addr at left source v small few enough inside sized mapped long =
      let k = part left len in
      let (fits, short) = part_le left len in
      let first : attempt (λ s. allocate_block p.wide s addr) v ≡ some (tt, at_round v addr) =
        rw (attempt, allocate_block_inside p.wide v.superblock addr sized (omega (arith, mapped)))
          refl in
      let x = drop at (source (allocated p.wide v.superblock addr)) in
      let (v1, e, h) =
        disk_write-stores store (at_round v addr) addr k x (omega arith) small short (
          omega (
            arith,
            length-drop at (source (allocated p.wide v.superblock addr)),
            long (allocated p.wide v.superblock addr)
                (allocated-SameLayout p.wide v.superblock addr),
            fits,
          )) in
      let g = one_stored v v1 addr n k x h in
      elim (Bool-cases (ltb 0 (left - k))) [
        | inr last ↦ (
          v1,
          rw
              (
                chunk-part left len few (omega arith),
                part-rest left len few,
                positive (left - k) (omega arith),
                last,
              )
              (bind-eq (attempt (λ s. allocate_block p.wide s addr)) _ v _ first
                ∙ bind-eq (disk_write p len addr x k) _ (at_round v addr) _ e),
          g,
          (λ bytes same.
              gathered k left (drop at bytes) (take k (block store v1 addr))
                (gather store v1 n (addr + 1) (left - k)) fits
                (h.written
                  ∙ ap (λ ys. take k (drop at ys)) (same (allocated p.wide v.superblock addr)))
                (none_gathered v1 n (addr + 1) (left - k) (drop k (drop at bytes))
                  (omega (arith, ltb→le 0 (left - k) last)))),
        )
        | inl more ↦
            let (w, e', g', read') =
              write_rounds-Stores n (addr + 1) (at + k) (left - k) source v1 small (omega arith)
                (part-enough n left len enough) (omega arith) (g.layout.same_size ∙ sized)
                (omega (arith, mapped))
                (λ s l. omega (arith, long s (SameLayout-trans g.layout l), fits)) in
            (
              w,
              rw
                  (
                    chunk-part left len few (omega arith),
                    part-rest left len few,
                    positive (left - k) (omega arith),
                    more,
                  )
                  (bind-eq (attempt (λ s. allocate_block p.wide s addr)) _ v _ first
                    ∙ (bind-eq (disk_write p len addr x k) _ (at_round v addr) _ e ∙ e')),
              both_stored v v1 w addr n g g',
              (λ bytes same.
                  gathered k left (drop at bytes) (take k (block store w addr))
                    (gather store w n (addr + 1) (left - k)) fits
                    (ap (take k) (g'.below addr (omega arith))
                      ∙ (h.written
                          ∙ ap (λ ys. take k (drop at ys))
                              (same (allocated p.wide v.superblock addr))))
                    (read' bytes same ∙ ap (take (left - k)) (sym (drop-drop at k bytes)))),
            )
      ]
