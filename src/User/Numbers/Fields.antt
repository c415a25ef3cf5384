-- ===== src/User/Numbers/Fields.antt =====
-- question/user/bin/P5.c: words as rows of fields of the same width, and masks over them.
use native.Mathlib.Nat.{pow-suc, one-le-pow, mul_assoc, mul-add, mul-le-mul_left, mul-suc}
use assembly_os.Prelude.{
  ℕ, zero, suc, ◌+◌, ◌-◌, ◌*◌, ◌/◌, ◌%◌, ◌^◌, ◌≤◌, ◌<◌, ◌≡◌, refl, ◌∙◌, ap, List, [], ◌∷◌, arith,
  bit_and, bit_and_halves, bit_and-zero, length,
}

-- The number of ones among the last `n` binary digits.
unfoldable pub ones : ℕ → ℕ → ℕ
ones zero x = 0
ones (suc n) x = x % 2 + ones n (x / 2)

-- The word whose fields of `k` digits are given, the lowest first.
unfoldable pub word : ℕ → List ℕ → ℕ
word k [] = 0
word k (a ∷ l) = a + 2 ^ k * word k l

-- `n` fields of `2 * s` digits, in each the lower `s` digits set.
unfoldable pub mask : ℕ → ℕ → ℕ
mask s zero = 0
mask s (suc n) = 2 ^ s - 1 + 2 ^ (s + s) * mask s n

-- Each field with the next.
unfoldable pub sums : List ℕ → List ℕ
sums [] = []
sums (a ∷ []) = []
sums (a ∷ b ∷ l) = (a + b) ∷ sums l

unfoldable pub total : List ℕ → ℕ
total [] = 0
total (a ∷ l) = a + total l

abbrev pub Bounded : ℕ → List ℕ → Type 0
Bounded c [] = Unit
Bounded c (a ∷ l) = (a ≤ c) × Bounded c l

pub total-sums : (n : ℕ) (l : List ℕ) → length l ≡ n + n → total (sums l) ≡ total l
unfolding total sums
total-sums n [] e = refl
total-sums n (a ∷ []) e = absurd (omega arith)
total-sums zero (a ∷ b ∷ l) e = absurd (omega arith)
total-sums (suc n) (a ∷ b ∷ l) e = omega (arith, total-sums n l (omega arith))

pub length-sums : (n : ℕ) (l : List ℕ) → length l ≡ n + n → length (sums l) ≡ n
unfolding sums
length-sums n [] e = omega arith
length-sums n (a ∷ []) e = absurd (omega arith)
length-sums zero (a ∷ b ∷ l) e = absurd (omega arith)
length-sums (suc n) (a ∷ b ∷ l) e = omega (arith, length-sums n l (omega arith))

pub sums-Bounded : (c : ℕ) (l : List ℕ) → Bounded c l → Bounded (c + c) (sums l)
unfolding sums
sums-Bounded c [] h = tt
sums-Bounded c (a ∷ []) h = tt
sums-Bounded c (a ∷ b ∷ l) h = (omega (arith, h.0, h.1.0), sums-Bounded c l (h.1.1))

pub and_cong : {a b c d : ℕ} → a ≡ c → b ≡ d → bit_and a b ≡ bit_and c d
and_cong {b} {c} p q = ap (λ x. bit_and x b) p ∙ ap (bit_and c) q

pub double : (k b : ℕ) → 2 ^ suc k * b ≡ 2 * (2 ^ k * b)
double k b = ap (λ x. x * b) (omega (arith, pow-suc 2 k)) ∙ mul_assoc 2 (2 ^ k) b

pub halves : (k a b : ℕ) → (a + 2 ^ suc k * b) / 2 ≡ a / 2 + 2 ^ k * b
halves k a b = omega (arith, double k b)

-- Two fields apart.
pub bit_and_fields :
    (k a b p q : ℕ)
    → a < 2 ^ k
    → p < 2 ^ k
    → bit_and (a + 2 ^ k * b) (p + 2 ^ k * q) ≡ bit_and a p + 2 ^ k * bit_and b q
bit_and_fields zero a b p q ha hp =
    and_cong {c = b} {d = q} (omega arith) (omega arith)
    ∙ omega (
      arith,
      and_cong {a = a} {b = p} {c = 0} {d = 0} (omega arith) (omega arith),
      bit_and-zero 0,
    )
bit_and_fields (suc k) a b p q ha hp = omega (
  arith,
  bit_and_halves (a + 2 ^ suc k * b) (p + 2 ^ suc k * q),
  and_cong (halves k a b) (halves k p q),
  bit_and_fields k (a / 2) b (p / 2) q (omega (arith, pow-suc 2 k)) (omega (arith, pow-suc 2 k)),
  bit_and_halves a p,
  double k b,
  double k q,
  double k (bit_and b q),
)

pub bit_and_low : (s a : ℕ) → a < 2 ^ s → bit_and a (2 ^ s - 1) ≡ a
bit_and_low zero a h = bit_and-zero a ∙ omega arith
bit_and_low (suc s) a h = omega (
  arith,
  bit_and_halves a (2 ^ suc s - 1),
  and_cong {a = a / 2} refl half_mask,
  bit_and_low s (a / 2) (omega (arith, pow-suc 2 s)),
  pow-suc 2 s,
  one-le-pow s 2,
)
  where
    half_mask : (2 ^ suc s - 1) / 2 ≡ 2 ^ s - 1
    half_mask = omega (arith, pow-suc 2 s, one-le-pow s 2)

pub pow_double : (s : ℕ) → 2 ^ (s + s) ≡ 2 ^ s * 2 ^ s
pow_double zero = refl
pow_double (suc s) =
    ap (λ n. 2 ^ n) grown
    ∙ omega (arith, pow-suc 2 (s + s), pow-suc 2 (suc (s + s)), pow_double s, squared)
  where
    grown : suc s + suc s ≡ suc (suc (s + s))
    grown = omega arith

    squared : 2 ^ suc s * 2 ^ suc s ≡ 4 * (2 ^ s * 2 ^ s)
    squared = ap (λ p. p * p) (pow-suc 2 s) ∙ grind arith

-- Two fields of `s` digits fit twice the digits.
pub pair_fits : (s a b : ℕ) → a < 2 ^ s → b < 2 ^ s → a + 2 ^ s * b < 2 ^ (s + s)
pair_fits s a b ha hb = omega (arith, pow_double s, mul-le-mul_left (2 ^ s) hb, mul-suc (2 ^ s) b)

pub half_fits : (s : ℕ) → 2 ^ s - 1 < 2 ^ (s + s)
half_fits s = omega (
  arith,
  one-le-pow s 2,
  pair_fits s (2 ^ s - 1) 0 (omega (arith, one-le-pow s 2)) (omega (arith, one-le-pow s 2)),
)

-- The lower of two fields, in front of `z`.
pub keep_lower :
    (s a b z m : ℕ)
    → a < 2 ^ s
    → b < 2 ^ s
    → bit_and (a + 2 ^ s * (b + 2 ^ s * z)) (2 ^ s - 1 + 2 ^ (s + s) * m)
      ≡ a + 2 ^ (s + s) * bit_and z m
keep_lower s a b z m ha hb =
    and_cong regroup refl
    ∙ bit_and_fields (s + s) (a + 2 ^ s * b) z (2 ^ s - 1) m (pair_fits s a b ha hb) (half_fits s)
    ∙ ap (λ x. x + 2 ^ (s + s) * bit_and z m) low
  where
    regroup : a + 2 ^ s * (b + 2 ^ s * z) ≡ a + 2 ^ s * b + 2 ^ (s + s) * z
    regroup = omega (
      arith,
      mul-add (2 ^ s) b (2 ^ s * z),
      mul_assoc (2 ^ s) (2 ^ s) z,
      ap (λ x. x * z) (pow_double s),
    )

    low : bit_and (a + 2 ^ s * b) (2 ^ s - 1) ≡ a
    low =
        and_cong {c = a + 2 ^ s * b} {d = 2 ^ s - 1 + 2 ^ s * 0} refl (omega arith)
        ∙ bit_and_fields s a b (2 ^ s - 1) 0 ha (omega (arith, one-le-pow s 2))
        ∙ omega (arith, bit_and_low s a ha, ap (λ x. 2 ^ s * x) (bit_and-zero b))
