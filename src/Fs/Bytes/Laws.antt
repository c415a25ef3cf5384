-- ===== src/Fs/Bytes/Laws.antt =====
-- What is written to the disk is read back.
use assembly_os.Prelude.{
  ℕ, zero, suc, ◌<◌, ◌≡◌, ◌≢◌, refl, ap, ◌∙◌, sym, arith, List, [], ◌∷◌, ◌++◌, ◌==◌, false, take,
  replicate, length, length-append, length-take, length-replicate, take-append, drop-append,
  drop-append_suc, get_or-append, append_assoc, subst,
}
use assembly_os.Fs.State.{Superblock, Inode, FileLink, Directory}
use assembly_os.Fs.Bytes.{
  word_bytes, bytes_word, encode_words, decode_words, encode_inode, decode_inode, inode_of_words,
  encode_superblock, decode_superblock, superblock_of_words, up_to_zero, encode_name, encode_links,
  decode_links, encode_directory, decode_directory,
}

-- Every element is a word.
abbrev pub IsWords : List ℕ → Type 0
IsWords [] = Unit {0}
IsWords (w ∷ ws) = (w < 4294967296) × IsWords ws

bytes_word-word_bytes :
    (w : ℕ) (rest : List ℕ) → w < 4294967296 → bytes_word (word_bytes w ++ rest) ≡ w
bytes_word-word_bytes w rest h = omega arith

-- The words come back, whatever lies behind them.
decode_words-encode_words :
    (ws rest : List ℕ) → IsWords ws → decode_words (length ws) (encode_words ws ++ rest) ≡ ws
unfolding decode_words encode_words
decode_words-encode_words [] rest h = refl
decode_words-encode_words (w ∷ ws) rest h =
    rw
      (bytes_word-word_bytes w (encode_words ws ++ rest) h.0, decode_words-encode_words ws rest h.1)
      refl

read_back :
    (n : ℕ) (ws rest : List ℕ)
    → length ws ≡ n
    → IsWords ws
    → decode_words n (encode_words ws ++ rest) ≡ ws
read_back n ws rest e h =
    subst (λ k. decode_words k (encode_words ws ++ rest) ≡ ws) e
      (decode_words-encode_words ws rest h)

-- An inode of words with all its six block numbers.
pub record InodeIsValid (i : Inode) : Type 0 where
  pub words : IsWords (
      i.id ∷ i.type ∷ i.size ∷ i.blocks_allocated ∷ i.creation_time ∷ i.modification_time
      ∷ i.blocks)
  pub blocks_size : length i.blocks ≡ 6

pub decode_inode-encode_inode :
    (i : Inode) (rest : List ℕ) → InodeIsValid i → decode_inode (encode_inode i ++ rest) ≡ i
unfolding decode_inode encode_inode
decode_inode-encode_inode i rest v = ap inode_of_words (
    read_back 12
      (i.id ∷ i.type ∷ i.size ∷ i.blocks_allocated ∷ i.creation_time ∷ i.modification_time
        ∷ i.blocks)
      rest (omega (arith, v.blocks_size)) v.words)

pub record SuperblockIsValid (s : Superblock) : Type 0 where
  pub words : IsWords (
      s.disk_block_num ∷ s.disk_block_length ∷ s.inode_num ∷ s.inode_start ∷ s.free_inode_bitmap
      ++ (s.data_block_start ∷ s.free_block_bitmap))
  pub inode_bitmap_size : length s.free_inode_bitmap ≡ 8
  pub block_bitmap_size : length s.free_block_bitmap ≡ 128

abbrev superblock_words : Superblock → List ℕ
superblock_words s =
    s.disk_block_num ∷ s.disk_block_length ∷ s.inode_num ∷ s.inode_start ∷ s.free_inode_bitmap
    ++ (s.data_block_start ∷ s.free_block_bitmap)

superblock_of_words-words :
    (s : Superblock) → SuperblockIsValid s → superblock_of_words (superblock_words s) ≡ s
superblock_of_words-words s v =
    rw
      (
        take-append 8 s.free_inode_bitmap (s.data_block_start ∷ s.free_block_bitmap)
            v.inode_bitmap_size,
        get_or-append 8 s.free_inode_bitmap s.free_block_bitmap s.data_block_start 0
            v.inode_bitmap_size,
        drop-append_suc 8 s.free_inode_bitmap s.free_block_bitmap s.data_block_start
            v.inode_bitmap_size,
      )
      refl

pub decode_superblock-encode_superblock :
    (s : Superblock) (rest : List ℕ)
    → SuperblockIsValid s
    → decode_superblock (encode_superblock s ++ rest) ≡ s
unfolding decode_superblock encode_superblock
decode_superblock-encode_superblock s rest v =
    ap superblock_of_words (
      read_back 141 (superblock_words s) rest
        (omega (
          arith,
          length-append s.free_inode_bitmap (s.data_block_start ∷ s.free_block_bitmap),
          v.inode_bitmap_size,
          v.block_bitmap_size,
        ))
        v.words)
    ∙ superblock_of_words-words s v

-- A file name: at most 99 characters, none of them 0.
abbrev pub IsName : List ℕ → Type 0
IsName [] = Unit {0}
IsName (c ∷ cs) = (c ≢ 0) × IsName cs

-- A name that ends in zeros, cut to a length that leaves one of them.
up_to_zero-name :
    (k : ℕ) (name rest : List ℕ)
    → IsName name
    → length name < k
    → up_to_zero (take k (name ++ (0 ∷ rest))) ≡ name
unfolding up_to_zero
up_to_zero-name zero name rest h l = absurd (omega arith)
up_to_zero-name (suc k) [] rest h l = refl
up_to_zero-name (suc k) (c ∷ cs) rest h l =
    let e : (c == 0) ≡ false = ground (arith, h.0) in
    rw (e, up_to_zero-name k cs rest h.1 (omega arith)) refl

length-encode_name : (name : List ℕ) → length (encode_name name) ≡ 100
length-encode_name name =
    length-take 100 (name ++ replicate 100 0)
      (omega (arith, length-append name (replicate 100 0), length-replicate {A = ℕ} 100 0))

abbrev pub LinksAreValid : List FileLink → Type 0
LinksAreValid [] = Unit {0}
LinksAreValid (l ∷ ls) =
    (l.inode_id < 4294967296) × IsName l.filename × (length l.filename < 100) × LinksAreValid ls

decode_links-encode_links :
    (ls : List FileLink) (rest : List ℕ)
    → LinksAreValid ls
    → decode_links (length ls) (encode_links ls ++ rest) ≡ ls
unfolding decode_links encode_links
decode_links-encode_links [] rest h = refl
decode_links-encode_links (l ∷ ls) rest (w, n, s, h) =
    let size = length-encode_name l.filename in
    let back = encode_links ls ++ rest in
    rw
      (
        append_assoc (encode_name l.filename) (encode_links ls) rest,
        bytes_word-word_bytes l.inode_id (encode_name l.filename ++ back) w,
        take-append 100 (encode_name l.filename) back size,
        up_to_zero-name 100 l.filename (replicate 99 0) n s,
        drop-append 100 (encode_name l.filename) back size,
        decode_links-encode_links ls rest h,
      )
      refl

-- A directory of words and file names with all its ten links.
pub record DirectoryIsValid (dir : Directory) : Type 0 where
  pub count_word : dir.files_count < 4294967296
  pub links_valid : LinksAreValid dir.links
  pub links_size : length dir.links ≡ 10

pub decode_directory-encode_directory :
    (dir : Directory) (rest : List ℕ)
    → DirectoryIsValid dir
    → decode_directory (encode_directory dir ++ rest) ≡ dir
unfolding decode_directory encode_directory
decode_directory-encode_directory dir rest v =
    rw
      (
        bytes_word-word_bytes dir.files_count (encode_links dir.links ++ rest) v.count_word,
        sym v.links_size,
        decode_links-encode_links dir.links rest v.links_valid,
      )
      refl
