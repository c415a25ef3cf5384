-- ===== src/User/Numbers/Weight.antt =====
-- question/user/bin/P5.c: the count of the ones in a word, by fields that double in width.
use native.Mathlib.Nat.{
  pow-suc, mod-lt, one-le-pow, mul-add, mul-le-mul_left, mul-suc, add-mul-div_left, mod-add-div,
  div-eq_of_lt,
}
use assembly_os.Prelude.{
  ℕ, zero, suc, ◌+◌, ◌*◌, ◌/◌, ◌%◌, ◌^◌, ◌<◌, ◌≡◌, refl, ◌∙◌, ap, sym, List, [], ◌∷◌, arith,
  bit_and, bit_and-zero, length,
}
use assembly_os.User.Numbers.{add_fields, weight}
use assembly_os.User.Numbers.Fields.{
  ones, word, mask, sums, total, Bounded, total-sums, length-sums, sums-Bounded, and_cong,
  keep_lower,
}

-- The fields of `n` pairs at the even places, and at the odd places.
lows : List ℕ → List ℕ
lows [] = []
lows (a ∷ []) = []
lows (a ∷ b ∷ l) = a ∷ lows l

highs : List ℕ → List ℕ
highs [] = []
highs (a ∷ []) = []
highs (a ∷ b ∷ l) = b ∷ highs l

word-lows :
    (n s c : ℕ) (l : List ℕ)
    → length l ≡ n + n
    → c < 2 ^ s
    → Bounded c l
    → bit_and (word s l) (mask s n) ≡ word (s + s) (lows l)
unfolding word mask lows
word-lows zero s c [] e h k = bit_and-zero 0
word-lows (suc n) s c [] e h k = absurd (omega arith)
word-lows n s c (a ∷ []) e h k = absurd (omega arith)
word-lows zero s c (a ∷ b ∷ l) e h k = absurd (omega arith)
word-lows (suc n) s c (a ∷ b ∷ l) e h k =
    keep_lower s a b (word s l) (mask s n) (omega (arith, k.0)) (omega (arith, k.1.0))
    ∙ ap (λ x. a + 2 ^ (s + s) * x) (word-lows n s c l (omega arith) h (k.1.1))

two_pow_pos : (s : ℕ) → 0 < 2 ^ s
two_pow_pos s = omega (arith, one-le-pow s 2)

-- The shift leaves the odd places.
word-highs :
    (n s c : ℕ) (l : List ℕ)
    → length l ≡ n + n
    → c < 2 ^ s
    → Bounded c l
    → bit_and (word s l / 2 ^ s) (mask s n) ≡ word (s + s) (highs l)
unfolding word mask highs
word-highs zero s c [] e h k = bit_and-zero (0 / 2 ^ s)
word-highs (suc n) s c [] e h k = absurd (omega arith)
word-highs n s c (a ∷ []) e h k = absurd (omega arith)
word-highs zero s c (a ∷ b ∷ l) e h k = absurd (omega arith)
word-highs (suc n) s c (a ∷ b ∷ l) e h k =
    and_cong {d = mask s (suc n)} shifted refl
    ∙ keep_lower s b (word s l % 2 ^ s) (word s l / 2 ^ s) (mask s n) (omega (arith, k.1.0))
        (mod-lt (word s l) (two_pow_pos s))
    ∙ ap (λ x. b + 2 ^ (s + s) * x) (word-highs n s c l (omega arith) h (k.1.1))
  where
    z : ℕ
    z = word s l

    shifted : (a + 2 ^ s * (b + 2 ^ s * z)) / 2 ^ s ≡ b + 2 ^ s * (z % 2 ^ s + 2 ^ s * (z / 2 ^ s))
    shifted =
        add-mul-div_left a (b + 2 ^ s * z) (two_pow_pos s)
        ∙ omega (
          arith,
          div-eq_of_lt {n = a} {m = 2 ^ s} (omega (arith, k.0)),
          ap (λ x. 2 ^ s * x) (mod-add-div z (2 ^ s)),
        )

word-add :
    (n k : ℕ) (l : List ℕ) → length l ≡ n + n → word k (lows l) + word k (highs l) ≡ word k (sums l)
unfolding word lows highs sums
word-add n k [] e = refl
word-add n k (a ∷ []) e = absurd (omega arith)
word-add zero k (a ∷ b ∷ l) e = absurd (omega arith)
word-add (suc n) k (a ∷ b ∷ l) e = omega (
  arith,
  mul-add (2 ^ k) (word k (lows l)) (word k (highs l)),
  ap (λ x. 2 ^ k * x) (word-add n k l (omega arith)),
)

-- The numbers below which `n` fields of `k` digits stay.
capacity : ℕ → ℕ → ℕ
capacity k zero = 1
capacity k (suc n) = 2 ^ k * capacity k n

word-lt :
    (c k n : ℕ) (l : List ℕ) → length l ≡ n → c < 2 ^ k → Bounded c l → word k l < capacity k n
unfolding word capacity
word-lt c k zero [] e h b = omega arith
word-lt c k (suc n) [] e h b = absurd (omega arith)
word-lt c k zero (a ∷ l) e h b = absurd (omega arith)
word-lt c k (suc n) (a ∷ l) e h b = omega (
  arith,
  b.0,
  mul-le-mul_left (2 ^ k) (word-lt c k n l (omega arith) h (b.1)),
  mul-suc (2 ^ k) (word k l),
)

-- One line of `weight` adds each field to the next.
line :
    (n s c : ℕ) (l : List ℕ)
    → length l ≡ n + n
    → c < 2 ^ s
    → c + c < 2 ^ (s + s)
    → capacity (s + s) n ≡ 4294967296
    → Bounded c l
    → add_fields (mask s n) s (word s l) ≡ word (s + s) (sums l)
unfolding add_fields
line n s c l e h room whole b = omega (
  arith,
  word-lows n s c l e h b,
  word-highs n s c l e h b,
  word-add n (s + s) l e,
  word-lt (c + c) (s + s) n (sums l) (length-sums n l e) room (sums-Bounded c l b),
)

bits : ℕ → ℕ → List ℕ
bits zero x = []
bits (suc n) x = x % 2 ∷ bits n (x / 2)

length-bits : (n x : ℕ) → length (bits n x) ≡ n
unfolding bits
length-bits zero x = refl
length-bits (suc n) x = ap suc (length-bits n (x / 2))

bits-Bounded : (n x : ℕ) → Bounded 1 (bits n x)
unfolding bits
bits-Bounded zero x = tt
bits-Bounded (suc n) x = (omega arith, bits-Bounded n (x / 2))

word-bits : (n x : ℕ) → x < 2 ^ n → word 1 (bits n x) ≡ x
unfolding bits word
word-bits zero x h = omega arith
word-bits (suc n) x h = omega (arith, word-bits n (x / 2) (omega (arith, pow-suc 2 n)))

total-bits : (n x : ℕ) → total (bits n x) ≡ ones n x
unfolding bits total ones
total-bits zero x = refl
total-bits (suc n) x = omega (arith, total-bits n (x / 2))

word_single : (k : ℕ) (l : List ℕ) → length l ≡ 1 → word k l ≡ total l
unfolding word total
word_single k [] e = absurd (omega arith)
word_single k (a ∷ []) e = omega arith
word_single k (a ∷ b ∷ l) e = absurd (omega arith)

-- The five lines of `weight` count the ones of a word: the result is the number of ones among its
-- 32 binary digits, counted one by one.
pub weight_lem : (x : ℕ) → x < 4294967296 → weight x ≡ ones 32 x
unfolding weight mask capacity
weight_lem x h =
    ap (λ v. weight v) (sym (word-bits 32 x h))
    ∙ ap
        (λ v.
          add_fields 0x0000FFFF 16
            (add_fields 0x00FF00FF 8 (add_fields 0x0F0F0F0F 4 (add_fields 0x33333333 2 v))))
        (line 16 1 1 l0 (length-bits 32 x) (omega arith) (omega arith) refl (bits-Bounded 32 x))
    ∙ ap (λ v. add_fields 0x0000FFFF 16 (add_fields 0x00FF00FF 8 (add_fields 0x0F0F0F0F 4 v)))
        (line 8 2 2 l1 length1 (omega arith) (omega arith) refl bounded1)
    ∙ ap (λ v. add_fields 0x0000FFFF 16 (add_fields 0x00FF00FF 8 v))
        (line 4 4 4 l2 length2 (omega arith) (omega arith) refl bounded2)
    ∙ ap (λ v. add_fields 0x0000FFFF 16 v)
        (line 2 8 8 l3 length3 (omega arith) (omega arith) refl bounded3)
    ∙ line 1 16 16 l4 length4 (omega arith) (omega arith) refl bounded4
    ∙ word_single 32 (sums l4) (length-sums 1 l4 length4)
    ∙ total-sums 1 l4 length4
    ∙ total-sums 2 l3 length3
    ∙ total-sums 4 l2 length2
    ∙ total-sums 8 l1 length1
    ∙ total-sums 16 l0 (length-bits 32 x)
    ∙ total-bits 32 x
  where
    l0 : List ℕ
    l0 = bits 32 x

    l1 : List ℕ
    l1 = sums l0

    l2 : List ℕ
    l2 = sums l1

    l3 : List ℕ
    l3 = sums l2

    l4 : List ℕ
    l4 = sums l3

    length1 : length l1 ≡ 16
    length1 = length-sums 16 l0 (length-bits 32 x)

    length2 : length l2 ≡ 8
    length2 = length-sums 8 l1 length1

    length3 : length l3 ≡ 4
    length3 = length-sums 4 l2 length2

    length4 : length l4 ≡ 2
    length4 = length-sums 2 l3 length3

    bounded1 : Bounded 2 l1
    bounded1 = sums-Bounded 1 l0 (bits-Bounded 32 x)

    bounded2 : Bounded 4 l2
    bounded2 = sums-Bounded 2 l1 bounded1

    bounded3 : Bounded 8 l3
    bounded3 = sums-Bounded 4 l2 bounded2

    bounded4 : Bounded 16 l4
    bounded4 = sums-Bounded 8 l3 bounded3
