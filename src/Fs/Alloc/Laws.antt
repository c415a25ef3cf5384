-- ===== src/Fs/Alloc/Laws.antt =====
-- Which block and which inode is found free, and what an allocation does to the next search.
use assembly_os.Prelude.{
  ℕ, zero, suc, ◌+◌, ◌-◌, ◌*◌, ◌≤◌, ◌<◌, ◌≡◌, ◌≢◌, ◌⊎◌, inl, inr, arith, true, false, Bool-cases,
  some, same_value, subst, length, length-set, List, ltb, minus_one, refl, ap, sym, ◌∙◌, get_or,
  set-get_or, bit_or-zero,
}
use mathlib.Core.Bool.{false≢true}
use assembly_os.Fs.State.{Superblock}
use assembly_os.Fs.Bitmap.{
  word_offset, bit_offset, one_shifted, marked, unmarked, is_marked, set_bit, clear_bit, get_bit,
}
use assembly_os.Fs.Bitmap.Laws.{IsMapped, is_marked-marked, is_marked-unmarked, is_marked-lost}
use assembly_os.Fs.Alloc.{
  search_free, allocate_block, unallocate_block, free_data_block, free_inode_id,
}

-- A map of bits up to the number.
abbrev pub Covers : List ℕ → ℕ → Type 0
Covers words hi = hi ≤ 128 * length words

inside :
    (words : List ℕ) (a : ℕ) → a < 128 * length words → ltb (word_offset a) (length words) ≡ true
inside words a h = ground (arith, below a (length words) h)
  where
    below : (a n : ℕ) → a < 128 * n → word_offset a < n
    below a n h = omega arith

module _ (wide : ℕ → ℕ) where
  -- What a search from `i` up to `hi` returns.
  abbrev pub Searched : List ℕ → ℕ → ℕ → ℕ → ℕ → Type 0
  Searched words i hi missing r =
      ((r ≡ missing) × ((q : ℕ) → i ≤ q → q < hi → is_marked wide words q ≡ true))
      ⊎ ((i ≤ r)
          × (r < hi)
          × (is_marked wide words r ≡ false)
          × ((q : ℕ) → i ≤ q → q < r → is_marked wide words q ≡ true))

  -- A search that ends without a fault.
  search_free_lem :
      (n i hi : ℕ) (words : List ℕ) (missing r : ℕ)
      → i + n ≡ hi
      → search_free wide n i words missing ≡ some r
      → Searched words i hi missing r
  unfolding search_free get_bit
  search_free_lem zero i hi words missing r e f =
      inl (sym (same_value refl f), λ q l h. absurd (omega arith))
  search_free_lem (suc n) i hi words missing r e f =
      elim (Bool-cases (ltb (word_offset i) (length words))) [
        | inr out ↦ (let bad = rw (search_free, out) at f in absurd cc)
        | inl here ↦ elim (Bool-cases (is_marked wide words i)) [
          | inr free ↦
              let same : i ≡ r = same_value refl (rw (search_free, here, free) at f) in
              subst (Searched words i hi missing) same
                (inr (omega arith, omega arith, free, λ q l h. absurd (omega arith)))
          | inl taken ↦ skip taken (
              search_free_lem n (i + 1) hi words missing r (omega arith)
                (rw (search_free, here, taken) at f))
        ]
      ]
    where
      skip :
          is_marked wide words i ≡ true
          → Searched words (i + 1) hi missing r
          → Searched words i hi missing r
      skip taken (inl (e, all)) = inl (e, λ q l h. ground (arith, all q, taken))
      skip taken (inr (low, high, free, all)) =
          inr (omega arith, high, free, λ q l h. ground (arith, all q, taken))

  -- A search within the map ends without a fault.
  search_free_ends :
      (n i : ℕ) (words : List ℕ) (missing : ℕ)
      → Covers words (i + n)
      → (r : ℕ) × (search_free wide n i words missing ≡ some r)
  unfolding search_free get_bit
  search_free_ends zero i words missing h = (missing, refl)
  search_free_ends (suc n) i words missing h =
      let here = inside words i (omega arith) in
      elim (Bool-cases (is_marked wide words i)) [
        | inr free ↦ (i, rw (search_free, here, free) refl)
        | inl taken ↦
            rw (search_free, here, taken) (search_free_ends n (i + 1) words missing (omega arith))
      ]

  -- Of the data blocks, if all lie in the map, the search returns the lowest whose bit is clear,
  -- and 0 if the bit of each is set.
  pub free_data_block_lem :
      (s : Superblock)
      → s.data_block_start ≤ s.disk_block_num
      → Covers s.free_block_bitmap s.disk_block_num
      → (r : ℕ) × (free_data_block wide s ≡ some r)
        × Searched s.free_block_bitmap s.data_block_start s.disk_block_num 0 r
  unfolding free_data_block
  free_data_block_lem s h c =
      let n = s.disk_block_num - s.data_block_start in
      let (r, e) = search_free_ends n s.data_block_start s.free_block_bitmap 0 (omega arith) in
      (
        r,
        e,
        search_free_lem n s.data_block_start s.disk_block_num s.free_block_bitmap 0 r (omega arith)
            e,
      )

  -- On a disk whose data blocks start before its end, a block of the map other than 0 that a shift
  -- reaches is allocated without a fault, and is not found free again once it is.
  pub free_data_block-allocate_block :
      (s : Superblock) (a : ℕ)
      → s.data_block_start ≤ s.disk_block_num
      → a ≢ 0
      → IsMapped s.free_block_bitmap a
      → (t : Superblock) × (allocate_block wide s a ≡ some t) × (free_data_block wide t ≢ some a)
  unfolding allocate_block set_bit free_data_block
  free_data_block-allocate_block s a h nz v =
      let words = marked wide s.free_block_bitmap a in
      let here : ltb (word_offset a) (length s.free_block_bitmap) ≡ true =
        ground (arith, v.in_map) in
      let taken : is_marked wide words a ≡ true =
        is_marked-marked wide s.free_block_bitmap a a v v.in_word ∙ ground arith in
      (
        record s { free_block_bitmap = words },
        rw here refl,
        (λ e.
            elim (search_free_lem (s.disk_block_num - s.data_block_start) s.data_block_start
              s.disk_block_num words 0 a (omega arith) e) [
                | inl (none_left, _) ↦ nz none_left
                | inr (_, _, free, _) ↦ false≢true (sym free ∙ taken)
              ]),
      )

  unmarked-size : (words : List ℕ) (a : ℕ) → length (unmarked wide words a) ≡ length words
  unfolding unmarked
  unmarked-size words a = length-set _ _ _

  -- A data block that is given back is available: a search within the map finds it or a lower one.
  pub free_data_block-unallocate_block :
      (s : Superblock) (a : ℕ)
      → s.data_block_start ≤ a
      → a < s.disk_block_num
      → Covers s.free_block_bitmap s.disk_block_num
      → IsMapped s.free_block_bitmap a
      → (t : Superblock) × (r : ℕ) × (unallocate_block wide s a ≡ some t)
        × (free_data_block wide t ≡ some r)
        × (r ≤ a)
  unfolding unallocate_block clear_bit
  free_data_block-unallocate_block s a low high c v =
      let words = unmarked wide s.free_block_bitmap a in
      let t = record s { free_block_bitmap = words } in
      let here : ltb (word_offset a) (length s.free_block_bitmap) ≡ true =
        ground (arith, v.in_map) in
      let given : is_marked wide words a ≡ false =
        is_marked-unmarked wide s.free_block_bitmap a a v v.in_word ∙ ground arith in
      let (r, e, found) =
        free_data_block_lem t (omega arith)
          (omega (arith, c, unmarked-size s.free_block_bitmap a)) in
      (
        t,
        r,
        rw here refl,
        e,
        elim found [
          | inl (none_left, all) ↦ omega (arith, none_left)
          | inr (_, _, free, lower) ↦ elim (Bool-cases (ltb a r)) [
            | inl above ↦ absurd (false≢true (sym given ∙ lower a low (ground arith)))
            | inr below ↦ ground arith
          ]
        ],
      )

  -- If all inodes lie in their map, the search for an inode returns the lowest whose bit is clear,
  -- or -1 if there is none.
  pub free_inode_id_lem :
      (s : Superblock)
      → s.inode_num < 2147483648
      → Covers s.free_inode_bitmap s.inode_num
      → (r : ℕ) × (free_inode_id wide s ≡ some r)
        × Searched s.free_inode_bitmap 0 s.inode_num minus_one r
  unfolding free_inode_id
  free_inode_id_lem s h c =
      let small : ltb s.inode_num 2147483648 ≡ true = ground arith in
      let (r, e) = search_free_ends s.inode_num 0 s.free_inode_bitmap minus_one (omega arith) in
      (
        r,
        rw small e,
        search_free_lem s.inode_num 0 s.inode_num s.free_inode_bitmap minus_one r (omega arith) e,
      )

  -- Where a wide shift gives 0, the allocation of a block of the map past the thirty-second of its
  -- word changes nothing, and the block still reads as free.
  pub allocate_block_lost :
      (s : Superblock) (a : ℕ)
      → word_offset a < length s.free_block_bitmap
      → 32 ≤ bit_offset a
      → wide (bit_offset a) ≡ 0
      → (allocate_block wide s a ≡ some s) × (get_bit wide s.free_block_bitmap a ≡ some false)
  unfolding allocate_block set_bit marked get_bit one_shifted
  allocate_block_lost s a within h z =
      let here : ltb (word_offset a) (length s.free_block_bitmap) ≡ true = ground arith in
      let large : ltb (bit_offset a) 32 ≡ false = ground arith in
      let same : marked wide s.free_block_bitmap a ≡ s.free_block_bitmap =
        rw (large, z, bit_or-zero (get_or s.free_block_bitmap (word_offset a) 0))
          (set-get_or s.free_block_bitmap (word_offset a) 0) in
      (
        rw here (ap (λ ws. some (record s { free_block_bitmap = ws })) same),
        rw here (ap some (is_marked-lost wide s.free_block_bitmap a h z)),
      )
