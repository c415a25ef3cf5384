-- ===== src/Fs/Bitmap/Laws.antt =====
-- What a set and a clear of one bit do to each bit of a map.
use native.Mathlib.Nat.{pow-le-pow_right, pow-suc}
use assembly_os.Prelude.{
  ℕ, zero, suc, ◌-◌, ◌*◌, ◌/◌, ◌%◌, ◌^◌, ◌≤◌, ◌<◌, ◌≡◌, ◌≢◌, arith, true, false, not, List, length,
  ◌==◌, if◌then◌else◌, ltb, bit_and, bit_or, get_or, set, get_or-set_self, get_or-set_ne, bit,
  bit-le, bit-bit_or, bit-bit_and, bit-pow_self, bit-pow_ne, bit_and-pow, bit_and-zero,
  bit-complement, Bool-cases, inl, inr, sym,
}
use assembly_os.Fs.Bitmap.{word_offset, bit_offset, one_shifted, marked, unmarked, is_marked}

-- The word of `n` is in the map, and its bit is one that a shift reaches.
pub record IsMapped (words : List ℕ) (n : ℕ) : Type 0 where
  pub in_map : word_offset n < length words
  pub in_word : bit_offset n < 32

abbrev digit : List ℕ → ℕ → ℕ
digit words n = bit (bit_offset n) (get_or words (word_offset n) 0)

pow_pos : (b : ℕ) → 0 < 2 ^ b
pow_pos zero = omega arith
pow_pos (suc b) = omega (arith, pow-suc 2 b, pow_pos b)

pow_small : (b : ℕ) → b < 32 → (0 < 2 ^ b) × (2 ^ b < 2 ^ 32)
pow_small b h = (
  pow_pos b,
  omega (arith, pow-le-pow_right {n = 2} (omega arith) {i = b} {j = 31} (omega arith)),
)

not_zero : (d p x : ℕ) → d ≤ 1 → 0 < p → x ≡ d * p → not (x == 0) ≡ not (d == 0)
not_zero zero p x h l e = ground arith
not_zero (suc zero) p x h l e = ground arith
not_zero (suc (suc d)) p x h l e = absurd (omega arith)

module _ (wide : ℕ → ℕ) where
  -- A bit reads as set exactly if it is the digit of its word.
  is_marked-digit :
      (words : List ℕ) (n : ℕ)
      → bit_offset n < 32
      → is_marked wide words n ≡ not (digit words n == 0)
  unfolding is_marked one_shifted
  is_marked-digit words n h =
      let w = get_or words (word_offset n) 0 in
      let small : ltb (bit_offset n) 32 ≡ true = ground arith in
      rw small (
        not_zero (digit words n) (2 ^ bit_offset n) (bit_and w (2 ^ bit_offset n))
          (bit-le (bit_offset n) w) (pow_small (bit_offset n) h).0 (bit_and-pow (bit_offset n) w))

  shifted : (n : ℕ) → bit_offset n < 32 → one_shifted wide (bit_offset n) ≡ 2 ^ bit_offset n
  unfolding one_shifted
  shifted n h = ground arith

-- The digits of a map in which the word of `n` is replaced.
digit-set :
    (words : List ℕ) (n m w : ℕ)
    → IsMapped words n
    → digit (set words (word_offset n) w) m
      ≡ (if word_offset m == word_offset n then bit (bit_offset m) w else digit words m)
digit-set words n m w v = elim (Bool-cases (word_offset m == word_offset n)) [
  | inl here ↦
      let e : word_offset m ≡ word_offset n = ground arith in
      rw (here, e, get_or-set_self words (word_offset n) w 0 v.in_map)
  | inr ne ↦
      let d : word_offset n ≢ word_offset m = ground arith in
      rw (ne, get_or-set_ne words (word_offset n) (word_offset m) w 0 d)
]

-- Two numbers of one word have different bits.
offsets :
    (m n : ℕ)
    → (m == n) ≡ false
    → (word_offset m == word_offset n) ≡ true
    → bit_offset m ≢ bit_offset n
offsets m n ne here e = same m n (ground arith) (ground arith) e
  where
    same : (m n : ℕ) → m ≢ n → m / 128 ≡ n / 128 → m % 128 ≡ n % 128 → ⊥
    same m n ne p q = omega arith

module _ (wide : ℕ → ℕ) where
  digit-marked :
      (words : List ℕ) (n m : ℕ)
      → IsMapped words n
      → digit (marked wide words n) m ≡ (if m == n then 1 else digit words m)
  unfolding marked
  digit-marked words n m v =
      let w = get_or words (word_offset n) 0 in
      rw
        (
          digit-set words n m (bit_or w (one_shifted wide (bit_offset n))) v,
          shifted wide n v.in_word,
          bit-bit_or (bit_offset m) w (2 ^ bit_offset n),
        )
        (elim (Bool-cases (m == n)) [
          | inl same ↦
              let e : m ≡ n = ground arith in
              rw e (ground (arith, bit-pow_self (bit_offset n), bit-le (bit_offset n) w))
          | inr ne ↦ elim (Bool-cases (word_offset m == word_offset n)) [
            | inl here ↦
                rw (ne, here)
                  (ground (
                    arith,
                    bit-le (bit_offset m) w,
                    bit-pow_ne (bit_offset m) (bit_offset n) (offsets m n ne here),
                  ))
            | inr away ↦ ground arith
          ]
        ])

  -- After `marked` of a number whose bit a shift reaches, that bit reads as set and every other
  -- such bit as before.
  pub is_marked-marked :
      (words : List ℕ) (n m : ℕ)
      → IsMapped words n
      → bit_offset m < 32
      → is_marked wide (marked wide words n) m ≡ (if m == n then true else is_marked wide words m)
  is_marked-marked words n m v h =
      rw
        (
          is_marked-digit wide (marked wide words n) m h,
          is_marked-digit wide words m h,
          digit-marked words n m v,
        )
        (ground arith)

  digit-unmarked :
      (words : List ℕ) (n m : ℕ)
      → IsMapped words n
      → bit_offset m < 32
      → digit (unmarked wide words n) m ≡ (if m == n then 0 else digit words m)
  unfolding unmarked
  digit-unmarked words n m v h =
      let w = get_or words (word_offset n) 0 in
      rw
        (
          digit-set words n m (bit_and w (4294967295 - one_shifted wide (bit_offset n))) v,
          shifted wide n v.in_word,
          bit-bit_and (bit_offset m) w (4294967295 - 2 ^ bit_offset n),
          bit-complement 32 (bit_offset m) (2 ^ bit_offset n) h
              (pow_small (bit_offset n) v.in_word).1,
        )
        (elim (Bool-cases (m == n)) [
          | inl same ↦
              let e : m ≡ n = ground arith in
              rw e (ground (arith, bit-pow_self (bit_offset n), bit-le (bit_offset n) w))
          | inr ne ↦ elim (Bool-cases (word_offset m == word_offset n)) [
            | inl here ↦
                let e : word_offset m ≡ word_offset n = ground arith in
                rw (ne, here, sym e)
                  (ground (
                    arith,
                    bit-le (bit_offset m) (get_or words (word_offset m) 0),
                    bit-pow_ne (bit_offset m) (bit_offset n) (offsets m n ne here),
                  ))
            | inr away ↦ ground arith
          ]
        ])

  -- After `unmarked` of a number whose bit a shift reaches, that bit reads as clear and every
  -- other such bit as before.
  pub is_marked-unmarked :
      (words : List ℕ) (n m : ℕ)
      → IsMapped words n
      → bit_offset m < 32
      → is_marked wide (unmarked wide words n) m
        ≡ (if m == n then false else is_marked wide words m)
  is_marked-unmarked words n m v h =
      rw
        (
          is_marked-digit wide (unmarked wide words n) m h,
          is_marked-digit wide words m h,
          digit-unmarked words n m v h,
        )
        (ground arith)

  -- A bit past the thirty-second of its word reads as clear, whatever the map holds, where a wide
  -- shift gives 0.
  pub is_marked-lost :
      (words : List ℕ) (n : ℕ)
      → 32 ≤ bit_offset n
      → wide (bit_offset n) ≡ 0
      → is_marked wide words n ≡ false
  unfolding is_marked one_shifted
  is_marked-lost words n h z =
      let large : ltb (bit_offset n) 32 ≡ false = ground arith in
      rw (large, z, bit_and-zero (get_or words (word_offset n) 0))
