-- ===== src/Fs/Bitmap.antt =====
-- question/kernel/bitmap.c: maps of bits in 32-bit words.
-- `BITS_PER_WORD` of bitmap.h is 32 * sizeof(word_t), which is 128, so the bit offset of a number
-- runs up to 127. `1 << n` is defined for n below 32 only: from there on its value is the
-- parameter `wide` of the operations, which the compiler and the processor choose.
pub mod Laws
use assembly_os.Prelude.{
  ℕ, Option, none, some, length, ◌-◌, ◌/◌, ◌%◌, ◌^◌, Bool, not, List, ◌==◌, if◌then◌else◌, ltb,
  bit_and, bit_or, get_or, set,
}

abbrev pub bits_per_word : ℕ
bits_per_word = 128

abbrev pub word_offset : ℕ → ℕ
word_offset b = b / bits_per_word

abbrev pub bit_offset : ℕ → ℕ
bit_offset b = b % bits_per_word

module _ (wide : ℕ → ℕ) where
  -- `1 << n`
  unfoldable pub one_shifted : ℕ → ℕ
  one_shifted n = if ltb n 32 then 2 ^ n else wide n

  -- The accesses where the word is one of the map.
  unfoldable pub marked : List ℕ → ℕ → List ℕ
  marked words n =
      set words (word_offset n)
        (bit_or (get_or words (word_offset n) 0) (one_shifted (bit_offset n)))

  -- `~x` is the complement of the 32 bits.
  unfoldable pub unmarked : List ℕ → ℕ → List ℕ
  unmarked words n =
      set words (word_offset n)
        (bit_and (get_or words (word_offset n) 0) (4294967295 - one_shifted (bit_offset n)))

  unfoldable pub is_marked : List ℕ → ℕ → Bool
  is_marked words n =
      not (bit_and (get_or words (word_offset n) 0) (one_shifted (bit_offset n)) == 0)

  -- `none` is an access outside the map.
  unfoldable pub set_bit : List ℕ → ℕ → Option (List ℕ)
  set_bit words n = if ltb (word_offset n) (length words) then some (marked words n) else none

  unfoldable pub clear_bit : List ℕ → ℕ → Option (List ℕ)
  clear_bit words n = if ltb (word_offset n) (length words) then some (unmarked words n) else none

  -- The result 1 is `true`.
  unfoldable pub get_bit : List ℕ → ℕ → Option Bool
  get_bit words n = if ltb (word_offset n) (length words) then some (is_marked words n) else none
