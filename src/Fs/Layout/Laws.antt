-- ===== src/Fs/Layout/Laws.antt =====
-- The regions of a new disk do not overlap.
use native.Mathlib.Nat.{
  div-mul-le_self, lt-div-mul-add, mul-le-mul_right, mul-le-mul, div-le_self, le-mul_of_pos_right,
  mul_comm,
}
use assembly_os.Prelude.{
  ℕ, ◌+◌, ◌-◌, ◌*◌, ◌/◌, ◌%◌, ◌≤◌, ◌<◌, ◌≡◌, arith, ap, ◌∙◌, Bool-cases, inl, inr, ltb→lt, ltb→le,
  true, false, ltb, slt, add32, if◌then◌else◌,
}
use assembly_os.Fs.Layout.{sdiv, blocks_occupied, id_to_addr, superblock_of}

-- On small positive numbers the quotient is that of the numbers.
sdiv-small : (a b : ℕ) → a < 2147483648 → b < 2147483648 → sdiv a b ≡ a / b
sdiv-small a b h l =
    let p : slt a 0 ≡ false = ground arith in
    let q : slt b 0 ≡ false = ground arith in
    let m : ltb a 2147483648 ≡ true = ground arith in
    let n : ltb b 2147483648 ≡ true = ground arith in
    rw (p, q, m, n) (below (a / b) (div-le_self a b))
  where
    below : (d : ℕ) → d ≤ a → d % 4294967296 ≡ d
    below d k = omega arith

blocks_occupied-small :
    (s b : ℕ) → 0 < s → s < 1000000 → b < 1000000 → blocks_occupied s b ≡ (s + b - 1) / s
unfolding blocks_occupied
blocks_occupied-small s b p h l =
    ap (λ a. sdiv a s) (omega arith) ∙ sdiv-small (s + b - 1) s (omega arith) (omega arith)

-- The number of blocks for some bytes is the least that holds them.
pub blocks_occupied_lem :
    (block_size bytes : ℕ)
    → 0 < block_size
    → block_size < 1000000
    → bytes < 1000000
    → (bytes ≤ blocks_occupied block_size bytes * block_size)
      × (blocks_occupied block_size bytes * block_size < bytes + block_size)
blocks_occupied_lem s b p h l = rw (blocks_occupied-small s b p h l) (
  omega (arith, lt-div-mul-add {a = s + b - 1} {b = s} p),
  omega (arith, div-mul-le_self (s + b - 1) s),
)

pub few_blocks : (s b : ℕ) → 0 < s → s < 1000000 → b < 1000000 → blocks_occupied s b ≤ b
few_blocks s b p h l = elim (Bool-cases (ltb b (blocks_occupied s b))) [
  | inr below ↦ ltb→le b (blocks_occupied s b) below
  | inl above ↦
      let over : b + 1 ≤ blocks_occupied s b =
        omega (arith, ltb→lt b (blocks_occupied s b) above) in
      absurd (
        grind (
          arith,
          (blocks_occupied_lem s b p h l).1,
          mul-le-mul_right s over,
          le-mul_of_pos_right b p,
        ))
]

pub few_inodes : (n : ℕ) → n < 2147483648 → (superblock_of n 1).inode_num ≤ 1024
unfolding superblock_of
few_inodes n h = capped (sdiv n 6) (omega (arith, sdiv-small n 6 h (omega arith), div-le_self n 6))
  where
    capped : (d : ℕ) → d < 2147483648 → (if slt 1024 d then 1024 else d) ≤ 1024
    capped d k = ground arith

-- The addresses of two inodes and the end of the last, as long as no sum wraps.
addresses :
    (start size count i j : ℕ)
    → start ≤ 564
    → size ≤ 48
    → count ≤ 1024
    → i < j
    → j < count
    → (start ≤ add32 start (i * size % 4294967296))
      × (add32 start (i * size % 4294967296) + size ≤ add32 start (j * size % 4294967296))
      × (add32 start (j * size % 4294967296) + size ≤ add32 (size * count % 4294967296) start)
addresses start size count i j a b c l m =
    let first : i * size + size ≤ j * size = grind (arith, mul-le-mul_right size (step l)) in
    let second : j * size + size ≤ count * size = grind (arith, mul-le-mul_right size (step m)) in
    let total : count * size ≤ 1024 * 48 = mul-le-mul c b in
    let turned = mul_comm size count in
    sums (i * size) (j * size) (count * size) (size * count) first second (omega (arith, total))
      turned
  where
    step : {x y : ℕ} → x < y → x + 1 ≤ y
    step h = omega arith

    sums :
        (x y z w : ℕ)
        → x + size ≤ y
        → y + size ≤ z
        → z ≤ 49152
        → w ≡ z
        → (start ≤ add32 start (x % 4294967296))
          × (add32 start (x % 4294967296) + size ≤ add32 start (y % 4294967296))
          × (add32 start (y % 4294967296) + size ≤ add32 (w % 4294967296) start)
    sums x y z w p q r e = (omega arith, omega arith, omega arith)

-- On a new disk whose number of blocks is not negative and whose blocks have from 1 to 999,999
-- bytes, the superblock fits the blocks before the inodes, two inodes lie behind it and do not
-- overlap, and both lie before the first data block.
pub superblock_of_lem :
    (n len i j : ℕ)
    → n < 2147483648
    → 0 < len
    → len < 1000000
    → i < j
    → j < (superblock_of n len).inode_num
    → let s = superblock_of n len in
      let size = blocks_occupied len 48 in
      (564 ≤ s.inode_start * len)
      × (s.inode_start ≤ id_to_addr s i)
      × (id_to_addr s i + size ≤ id_to_addr s j)
      × (id_to_addr s j + size ≤ s.data_block_start)
unfolding id_to_addr superblock_of
superblock_of_lem n len i j a p h l m =
    let (low, apart, high) =
      addresses (blocks_occupied len 564) (blocks_occupied len 48) (superblock_of n len).inode_num i
        j (few_blocks len 564 p h (omega arith)) (few_blocks len 48 p h (omega arith))
        (few_inodes n a) l m in
    ((blocks_occupied_lem len 564 p h (omega arith)).0, low, apart, high)
