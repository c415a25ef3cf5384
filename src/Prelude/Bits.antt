-- ===== src/Prelude/Bits.antt =====
-- Single binary digits of a number, and what `bit_and` and `bit_or` do to them.
use Prim.Native.Nat.{
  ℕ, zero, suc, ◌+◌, ◌-◌, ◌*◌, ◌/◌, ◌%◌, ◌^◌, ◌≤◌, ◌<◌, min, max, bit_and, bit_or, digits,
  bit_and-bitwise, bit_or-bitwise,
}
use mathlib.Core.Path.{◌≡◌, refl, ◌∙◌, ap}
use mathlib.Core.Logic.{◌≢◌}
use native.Mathlib.Omega.{arith}
use native.Mathlib.Nat.{pow-suc, mul_assoc}

-- Digit `i` of `x`.
pub bit : ℕ → ℕ → ℕ
bit zero x = x % 2
bit (suc i) x = bit i (x / 2)

pub bit-le : (i x : ℕ) → bit i x ≤ 1
unfolding bit
bit-le zero x = omega arith
bit-le (suc i) x = bit-le i (x / 2)

-- More fuel than the first number gives the same digits.
digits_fuel :
    (z : ℕ → ℕ) (f : ℕ → ℕ → ℕ) (n m a b : ℕ) → a ≤ n → a ≤ m → digits z f n a b ≡ digits z f m a b
digits_fuel z f zero zero a b p q = refl
digits_fuel z f zero (suc m) zero b p q = refl
digits_fuel z f zero (suc m) (suc a) b p q = absurd (omega arith)
digits_fuel z f (suc n) zero zero b p q = refl
digits_fuel z f (suc n) zero (suc a) b p q = absurd (omega arith)
digits_fuel z f (suc n) (suc m) zero b p q = refl
digits_fuel z f (suc n) (suc m) (suc a) b p q =
    ap (λ d. d * 2 + f (suc a % 2) (b % 2))
      (digits_fuel z f n m (suc a / 2) (b / 2) (omega arith) (omega arith))

pub bit_and_halves : (a b : ℕ) → bit_and a b ≡ bit_and (a / 2) (b / 2) * 2 + min (a % 2) (b % 2)
bit_and_halves zero b = omega (arith, bit_and-bitwise 0 b, bit_and-bitwise 0 (b / 2))
bit_and_halves (suc a) b = omega (
  arith,
  bit_and-bitwise (suc a) b,
  bit_and-bitwise (suc a / 2) (b / 2),
  digits_fuel (λ _. zero) min a (suc a / 2) (suc a / 2) (b / 2) (omega arith) (omega arith),
)

pub bit_or_halves : (a b : ℕ) → bit_or a b ≡ bit_or (a / 2) (b / 2) * 2 + max (a % 2) (b % 2)
bit_or_halves zero b = omega (arith, bit_or-bitwise 0 b, bit_or-bitwise 0 (b / 2))
bit_or_halves (suc a) b = omega (
  arith,
  bit_or-bitwise (suc a) b,
  bit_or-bitwise (suc a / 2) (b / 2),
  digits_fuel (λ x. x) max a (suc a / 2) (suc a / 2) (b / 2) (omega arith) (omega arith),
)

half : (d x : ℕ) → d ≤ 1 → (x * 2 + d) / 2 ≡ x
half d x h = omega arith

pub bit-bit_or : (i a b : ℕ) → bit i (bit_or a b) ≡ max (bit i a) (bit i b)
unfolding bit
bit-bit_or zero a b = omega (arith, bit_or_halves a b)
bit-bit_or (suc i) a b =
    ap (λ x. bit i (x / 2)) (bit_or_halves a b)
    ∙ ap (bit i) (half (max (a % 2) (b % 2)) (bit_or (a / 2) (b / 2)) (omega arith))
    ∙ bit-bit_or i (a / 2) (b / 2)

pub bit-bit_and : (i a b : ℕ) → bit i (bit_and a b) ≡ min (bit i a) (bit i b)
unfolding bit
bit-bit_and zero a b = omega (arith, bit_and_halves a b)
bit-bit_and (suc i) a b =
    ap (λ x. bit i (x / 2)) (bit_and_halves a b)
    ∙ ap (bit i) (half (min (a % 2) (b % 2)) (bit_and (a / 2) (b / 2)) (omega arith))
    ∙ bit-bit_and i (a / 2) (b / 2)

bit-zero : (i : ℕ) → bit i 0 ≡ 0
unfolding bit
bit-zero zero = refl
bit-zero (suc i) = bit-zero i

pow-half : (b : ℕ) → (2 ^ suc b) / 2 ≡ 2 ^ b
pow-half b = omega (arith, pow-suc 2 b)

-- `2 ^ b` has the digit `b` alone.
pub bit-pow_self : (b : ℕ) → bit b (2 ^ b) ≡ 1
unfolding bit
bit-pow_self zero = refl
bit-pow_self (suc b) = ap (bit b) (pow-half b) ∙ bit-pow_self b

pub bit-pow_ne : (c b : ℕ) → c ≢ b → bit c (2 ^ b) ≡ 0
unfolding bit
bit-pow_ne zero zero ne = absurd (ne refl)
bit-pow_ne zero (suc b) ne = omega (arith, pow-suc 2 b)
bit-pow_ne (suc c) zero ne = bit-zero c
bit-pow_ne (suc c) (suc b) ne = ap (bit c) (pow-half b) ∙ bit-pow_ne c b (λ e. ne (ap suc e))

digits-zero : (n a : ℕ) → digits (λ _. zero) min n a 0 ≡ 0
digits-zero zero a = refl
digits-zero (suc n) zero = refl
digits-zero (suc n) (suc a) = omega (arith, digits-zero n (suc a / 2))

pub bit_and-zero : (a : ℕ) → bit_and a 0 ≡ 0
bit_and-zero a = bit_and-bitwise a 0 ∙ digits-zero a a

-- A test of one digit.
pub bit_and-pow : (b w : ℕ) → bit_and w (2 ^ b) ≡ bit b w * 2 ^ b
unfolding bit
bit_and-pow zero w = omega (arith, bit_and_halves w 1, bit_and-zero (w / 2))
bit_and-pow (suc b) w =
    bit_and_halves w (2 ^ suc b)
    ∙ ap (λ p. bit_and (w / 2) p * 2 + min (w % 2) (2 ^ suc b % 2)) (pow-half b)
    ∙ ap (λ p. p * 2 + min (w % 2) (2 ^ suc b % 2)) (bit_and-pow b (w / 2))
    ∙ doubled (bit b (w / 2)) (2 ^ b) (2 ^ suc b) (w % 2) (pow-suc 2 b)
  where
    doubled : (d p q e : ℕ) → q ≡ p * 2 → d * p * 2 + min e (q % 2) ≡ d * q
    doubled d p q e h = omega (arith, h, mul_assoc d p 2, ap (λ x. d * x) h)

pub bit_and-one : (x : ℕ) → bit_and x 1 ≡ x % 2
bit_and-one x = omega (arith, bit_and_halves x 1, bit_and-zero (x / 2))

-- The complement of a word of `n` digits.
pub bit-complement : (n i x : ℕ) → i < n → x < 2 ^ n → bit i (2 ^ n - 1 - x) ≡ 1 - bit i x
unfolding bit
bit-complement zero i x l h = absurd (omega arith)
bit-complement (suc n) zero x l h = omega (arith, pow-suc 2 n)
bit-complement (suc n) (suc i) x l h =
    ap (bit i) (halved x n h)
    ∙ bit-complement n i (x / 2) (omega arith) (omega (arith, pow-suc 2 n))
  where
    halved : (x n : ℕ) → x < 2 ^ suc n → (2 ^ suc n - 1 - x) / 2 ≡ 2 ^ n - 1 - x / 2
    halved x n h = omega (arith, pow-suc 2 n)

digits-or_zero : (n a : ℕ) → a ≤ n → digits (λ x. x) max n a 0 ≡ a
digits-or_zero zero a h = omega arith
digits-or_zero (suc n) zero h = refl
digits-or_zero (suc n) (suc a) h = omega (arith, digits-or_zero n (suc a / 2) (omega arith))

pub bit_or-zero : (a : ℕ) → bit_or a 0 ≡ a
bit_or-zero a = bit_or-bitwise a 0 ∙ digits-or_zero a a (omega arith)
