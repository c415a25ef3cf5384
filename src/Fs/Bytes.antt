-- ===== src/Fs/Bytes.antt =====
-- question/kernel/fs.h: the structures of the file system as they lie in memory and on the disk.
-- Words are little-endian. A file name is kept up to its final 0: no function of the kernel reads
-- what follows it, and the structures that are written have 0 there.
pub mod Laws
use assembly_os.Prelude.{
  ℕ, zero, suc, ◌+◌, ◌-◌, ◌*◌, ◌/◌, ◌%◌, List, [], ◌∷◌, ◌++◌, ◌==◌, if◌then◌else◌, get_or, take,
  drop, replicate, length,
}
use assembly_os.Fs.State.{Superblock, Inode, FileLink, Directory}

abbrev pub word_bytes : ℕ → List ℕ
word_bytes w = w % 256 ∷ w / 256 % 256 ∷ w / 65536 % 256 ∷ w / 16777216 % 256 ∷ []

abbrev pub bytes_word : List ℕ → ℕ
bytes_word b = get_or b 0 0 + get_or b 1 0 * 256 + get_or b 2 0 * 65536 + get_or b 3 0 * 16777216

unfoldable pub encode_words : List ℕ → List ℕ
encode_words [] = []
encode_words (w ∷ ws) = word_bytes w ++ encode_words ws

-- The first `n` words of some bytes.
unfoldable pub decode_words : ℕ → List ℕ → List ℕ
decode_words zero b = []
decode_words (suc n) b = bytes_word b ∷ decode_words n (drop 4 b)

unfoldable pub encode_inode : Inode → List ℕ
encode_inode i =
    encode_words (
      i.id ∷ i.type ∷ i.size ∷ i.blocks_allocated ∷ i.creation_time ∷ i.modification_time
      ∷ i.blocks)

abbrev pub inode_of_words : List ℕ → Inode
inode_of_words w = record {
  id = get_or w 0 0;
  type = get_or w 1 0;
  size = get_or w 2 0;
  blocks_allocated = get_or w 3 0;
  creation_time = get_or w 4 0;
  modification_time = get_or w 5 0;
  blocks = drop 6 w;
}

unfoldable pub decode_inode : List ℕ → Inode
decode_inode b = inode_of_words (decode_words 12 b)

unfoldable pub encode_superblock : Superblock → List ℕ
encode_superblock s = encode_words (
    s.disk_block_num ∷ s.disk_block_length ∷ s.inode_num ∷ s.inode_start ∷ s.free_inode_bitmap
    ++ (s.data_block_start ∷ s.free_block_bitmap))

abbrev pub superblock_of_words : List ℕ → Superblock
superblock_of_words w = record {
  disk_block_num = get_or w 0 0;
  disk_block_length = get_or w 1 0;
  inode_num = get_or w 2 0;
  inode_start = get_or w 3 0;
  free_inode_bitmap = take 8 (drop 4 w);
  data_block_start = get_or w 12 0;
  free_block_bitmap = drop 13 w;
}

unfoldable pub decode_superblock : List ℕ → Superblock
decode_superblock b = superblock_of_words (decode_words 141 b)

-- The characters of an array up to its 0.
unfoldable pub up_to_zero : List ℕ → List ℕ
up_to_zero [] = []
up_to_zero (c ∷ cs) = let rest = up_to_zero cs in if c == 0 then [] else c ∷ rest

abbrev pub max_file_name_length : ℕ
max_file_name_length = 100

abbrev pub encode_name : List ℕ → List ℕ
encode_name name = take 100 (name ++ replicate 100 0)

unfoldable pub encode_links : List FileLink → List ℕ
encode_links [] = []
encode_links (l ∷ ls) = word_bytes l.inode_id ++ (encode_name l.filename ++ encode_links ls)

unfoldable pub decode_links : ℕ → List ℕ → List FileLink
decode_links zero b = []
decode_links (suc n) b =
    record { inode_id = bytes_word b; filename = up_to_zero (take 100 (drop 4 b)) }
    ∷ decode_links n (drop 104 b)

unfoldable pub encode_directory : Directory → List ℕ
encode_directory dir = word_bytes dir.files_count ++ encode_links dir.links

unfoldable pub decode_directory : List ℕ → Directory
decode_directory b = record { files_count = bytes_word b; links = decode_links 10 (drop 4 b) }

-- `sizeof(directory_t)`
abbrev pub size_of_directory : ℕ
size_of_directory = 1044
