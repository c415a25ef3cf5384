-- ===== src/User/Numbers.antt =====
-- question/user/bin/P3.c, P4.c and P5.c, and `_slow` of question/user/lib/libc.c: the
-- computations of the test programs, on 32-bit words.
pub mod Primes
pub mod Divisors
pub mod Fields
pub mod Weight
use assembly_os.Prelude.{
  ℕ, zero, suc, ◌+◌, ◌-◌, ◌*◌, ◌/◌, ◌%◌, ◌^◌, Bool, true, false, not, ◌||◌, Option, none, some,
  ◌==◌, if◌then◌else◌, ltb, leb, add32, bit_and,
}

-- The loop of `is_prime`, which is also that of `_slow`; `none` is out of fuel.
unfoldable pub is_prime_from : ℕ → ℕ → ℕ → Option ℕ
is_prime_from zero d x = none
is_prime_from (suc fuel) d x =
    let rest = is_prime_from fuel (add32 d 2) x in
    if leb (d * d % 4294967296) x then (if x % d == 0 then some 0 else rest) else some 1

-- The loop ends when d * d is above x: 2 ^ 15 rounds are enough.
abbrev pub is_prime_fuel : ℕ
is_prime_fuel = 32768

unfoldable pub is_prime : ℕ → Option ℕ
is_prime x =
    if bit_and x 1 == 0 || ltb x 2
    then some (if x == 2 then 1 else 0)
    else is_prime_from is_prime_fuel 3 x

-- `_slow` of libc.c has the same code.
unfoldable pub slow : ℕ → Option ℕ
slow x = is_prime x

-- `gcd` of P4.c, which calls itself at most x + y times.
unfoldable pub gcd : ℕ → ℕ → ℕ → Option ℕ
gcd zero x y = none
gcd (suc fuel) x y =
    let left = gcd fuel (x - y) y in
    let right = gcd fuel x (y - x) in if x == y then some x else (if ltb y x then left else right)

-- One line of `weight`.
unfoldable pub add_fields : ℕ → ℕ → ℕ → ℕ
add_fields mask shift x = add32 (bit_and x mask) (bit_and (x / 2 ^ shift) mask)

unfoldable pub weight : ℕ → ℕ
weight x = add_fields 0x0000FFFF 16 (
    add_fields 0x00FF00FF 8
      (add_fields 0x0F0F0F0F 4 (add_fields 0x33333333 2 (add_fields 0x55555555 1 x))))
