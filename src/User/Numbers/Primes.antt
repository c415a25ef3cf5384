-- ===== src/User/Numbers/Primes.antt =====
-- question/user/bin/P3.c: the test of primality against its definition by trial of every number.
use Prim.Native.Nat.{◌∣◌}
use native.Mathlib.Nat.{
  mod-eq-zero_of_dvd, dvd_of_mod-eq-zero, dvd_trans, mul-div_cancel', dvd-mul_left, mul-le-mul,
  le_refl,
}
use assembly_os.Prelude.{
  ℕ, zero, suc, ◌+◌, ◌*◌, ◌/◌, ◌%◌, ◌≤◌, ◌<◌, ◌≡◌, ◌≢◌, refl, ◌∙◌, ap, sym, subst, Bool, true,
  false, not, ◌&&◌, some, inl, inr, ◌||◌, ◌⊎◌, Option, ◌==◌, leb, ltb, if◌then◌else◌, arith,
  Bool-cases, ltb→lt, ltb→le, add32, bit_and-one,
}
use assembly_os.User.Numbers.{is_prime_from, is_prime, is_prime_fuel}

-- Some number from 2 on and below `n` divides `x`.
unfoldable pub divided_below : ℕ → ℕ → Bool
divided_below zero x = false
divided_below (suc n) x =
    let rest = divided_below n x in if leb 2 n && x % n == 0 then true else rest

-- The definition of a prime: above 1 and divided by no number between 1 and itself.
unfoldable pub is_prime_number : ℕ → Bool
is_prime_number x = leb 2 x && not (divided_below x x)

abbrev Undivided : ℕ → ℕ → Type 0
Undivided n x = (k : ℕ) → 2 ≤ k → k < n → x % k ≢ 0

divided_below-Undivided : (n x : ℕ) → Undivided n x → divided_below n x ≡ false
unfolding divided_below
divided_below-Undivided zero x h = refl
divided_below-Undivided (suc n) x h =
    ground (arith, h n, divided_below-Undivided n x (λ k a b. h k a (omega arith)))

divided_below_found : (n x k : ℕ) → 2 ≤ k → k < n → x % k ≡ 0 → divided_below n x ≡ true
unfolding divided_below
divided_below_found zero x k a b e = absurd (omega arith)
divided_below_found (suc n) x k a b e = elim (Bool-cases (ltb k n)) [
  | inl less ↦ ground (arith, divided_below_found n x k a (ltb→lt k n less) e)
  | inr more ↦ let same : k ≡ n = omega (arith, ltb→le k n more) in ground arith
]

quotient_large : (k q : ℕ) → k < k * q → 2 ≤ q
quotient_large k zero h = absurd (omega arith)
quotient_large k (suc zero) h = absurd (omega arith)
quotient_large k (suc (suc q)) h = omega arith

quotient_small : (k d q : ℕ) → k * q < d * d → d ≤ k → q < d
quotient_small k d q h l = elim (Bool-cases (ltb q d)) [
  | inl less ↦ ltb→lt q d less
  | inr more ↦ absurd (product_le (ltb→le q d more))
]
  where
    product_le : d ≤ q → ⊥
    product_le m = omega (arith, mul-le-mul l m)

-- A divisor from `d` on has its partner below `d`, if d * d is above the number.
below_root : (d x : ℕ) → x < d * d → 2 ≤ d → Undivided d x → Undivided x x
below_root d x h two free k a b e = elim (Bool-cases (ltb k d)) [
  | inl less ↦ free k a (ltb→lt k d less) e
  | inr more ↦ free (x / k) large (partner_small (ltb→le k d more)) divides
]
  where
    product : k * (x / k) ≡ x
    product = mul-div_cancel' k (dvd_of_mod-eq-zero k e)

    large : 2 ≤ x / k
    large = quotient_large k (x / k) (omega (arith, product))

    partner_small : d ≤ k → x / k < d
    partner_small l = quotient_small k d (x / k) (omega (arith, product)) l

    divides : x % (x / k) ≡ 0
    divides = mod-eq-zero_of_dvd (x / k) (subst (◌∣◌ (x / k)) product (dvd-mul_left (x / k) k))

square_fits : (d : ℕ) → d ≤ 65535 → d * d % 4294967296 ≡ d * d
square_fits d h = let low : d * d ≤ 65535 * 65535 = mul-le-mul h h in omega arith

stop_above :
    (fuel d x : ℕ) → d ≤ 65535 → leb (d * d) x ≡ false → is_prime_from (suc fuel) d x ≡ some 1
unfolding is_prime_from
stop_above fuel d x h over = rw (square_fits d h, over) refl

stop_divided :
    (fuel d x : ℕ)
    → d ≤ 65535
    → leb (d * d) x ≡ true
    → x % d == 0 ≡ true
    → is_prime_from (suc fuel) d x ≡ some 0
unfolding is_prime_from
stop_divided fuel d x h under divides = rw (square_fits d h, under, divides) refl

go_on :
    (fuel d x : ℕ)
    → d ≤ 65535
    → leb (d * d) x ≡ true
    → x % d == 0 ≡ false
    → is_prime_from (suc fuel) d x ≡ is_prime_from fuel (d + 2) x
unfolding is_prime_from
go_on fuel d x h under free =
    let next : add32 d 2 ≡ d + 2 = omega arith in rw (square_fits d h, under, free, next) refl

-- Both `d` and the even number behind it are no divisors of an odd number.
next-Undivided : (d x : ℕ) → d % 2 ≡ 1 → x % 2 ≡ 1 → x % d ≢ 0 → Undivided d x → Undivided (d + 2) x
next-Undivided d x odd odd_x apart free k a b e = elim (Bool-cases (ltb k d)) [
  | inl less ↦ free k a (ltb→lt k d less) e
  | inr more ↦ elim (Bool-cases (k == d)) [
    | inl same ↦ apart (ground arith)
    | inr next ↦
        let even : k ≡ (k / 2) * 2 = ground (arith, ltb→le k d more) in
        let two : 2 ∣ x =
          dvd_trans 2 (subst (◌∣◌ 2) (sym even) (dvd-mul_left 2 (k / 2)))
            (dvd_of_mod-eq-zero k e) in
        omega (arith, mod-eq-zero_of_dvd 2 two)
  ]
]

-- The number is odd, so is `d`, and no number below `d` divides it.
is_prime_loop :
    (fuel d x : ℕ)
    → d % 2 ≡ 1
    → 3 ≤ d
    → d ≤ 65535
    → 65536 ≤ d + 2 * fuel
    → x % 2 ≡ 1
    → 2 ≤ x
    → x < 4294836225
    → Undivided d x
    → is_prime_from fuel d x ≡ some (if divided_below x x then 0 else 1)
is_prime_loop zero d x odd three high enough odd_x two small free = absurd (omega arith)
is_prime_loop (suc fuel) d x odd three high enough odd_x two small free =
    elim (Bool-cases (leb (d * d) x)) [
      | inr over ↦
          stop_above fuel d x high over
          ∙ ap (λ b. some (if b then 0 else 1))
              (sym (divided_below-Undivided x x (below_root d x (ground arith) (omega arith) free)))
      | inl under ↦ elim (Bool-cases (x % d == 0)) [
        | inl divides ↦
            stop_divided fuel d x high under divides
            ∙ ap (λ b. some (if b then 0 else 1))
                (sym (divided_below_found x x d (omega arith) (root_below under) (ground arith)))
        | inr apart ↦
            go_on fuel d x high under apart
            ∙ is_prime_loop fuel (d + 2) x (omega arith) (omega arith) (next_fits under)
                (omega arith) odd_x two small (next-Undivided d x odd odd_x (ground arith) free)
      ]
    ]
  where
    root_below : leb (d * d) x ≡ true → d < x
    root_below under = let low : 3 * d ≤ d * d = mul-le-mul three (le_refl d) in ground arith

    next_fits : leb (d * d) x ≡ true → d + 2 ≤ 65535
    next_fits under = elim (Bool-cases (d == 65535)) [
      | inl top ↦
          let e : d ≡ 65535 = ground arith in
          let square : d * d ≡ 4294836225 = ap (λ n. n * n) e in absurd (ground arith)
      | inr less ↦ let low : d ≢ 65535 = ground arith in omega arith
    ]

is_prime_even : (x : ℕ) → (x % 2 ≡ 0) ⊎ (x < 2) → is_prime x ≡ some (if x == 2 then 1 else 0)
unfolding is_prime
is_prime_even x (inl e) = rw (bit_and-one x) (ground arith)
is_prime_even x (inr h) = ground arith

is_prime_odd : (x : ℕ) → x % 2 ≡ 1 → 2 ≤ x → is_prime x ≡ is_prime_from is_prime_fuel 3 x
unfolding is_prime
is_prime_odd x e h = rw (bit_and-one x) (ground arith)

two_prime : is_prime_number 2 ≡ (2 == 2)
unfolding is_prime_number divided_below
two_prime = refl

-- An even number, 0 and 1: only 2 is a prime.
reference_even : (x : ℕ) → (x % 2 ≡ 0) ⊎ (x < 2) → is_prime_number x ≡ (x == 2)
unfolding is_prime_number
reference_even x h = elim (Bool-cases (ltb 2 x)) [
  | inl above ↦
      let even : x % 2 ≡ 0 = ground (arith) in
      let divided : divided_below x x ≡ true =
        divided_below_found x x 2 (omega arith) (ltb→lt 2 x above) even in
      ground arith
  | inr below ↦ elim (Bool-cases (x == 2)) [
    | inl two ↦ let e : x ≡ 2 = ground arith in rw e two_prime
    | inr small ↦ ground arith
  ]
]

two_free : (x : ℕ) → x % 2 ≡ 1 → Undivided 3 x
two_free x o k a b e =
    let two : k ≡ 2 = omega arith in absurd (parity (ap (λ n. x % n) (sym two) ∙ e))
  where
    parity : x % 2 ≡ 0 → ⊥
    parity h = omega arith

reference_odd :
    (x : ℕ)
    → 2 ≤ x
    → ◌≡◌ {A = Option ℕ}
        (some (if divided_below x x then 0 else 1))
        (some (if is_prime_number x then 1 else 0))
unfolding is_prime_number
reference_odd x two = ground arith

-- Below 65535 * 65535 the loop of `is_prime` returns, and its answer is 1 exactly for the primes:
-- the numbers from 2 on that no number between 1 and themselves divides. For all others it is 0.
pub is_prime_lem : (x : ℕ) → x < 4294836225 → is_prime x ≡ some (if is_prime_number x then 1 else 0)
is_prime_lem x small = elim (Bool-cases (x % 2 == 0 || ltb x 2)) [
  | inl even ↦
      is_prime_even x (side even)
      ∙ ap (λ b. some (if b then 1 else 0)) (sym (reference_even x (side even)))
  | inr odd ↦
      let o : x % 2 ≡ 1 = ground arith in
      let two : 2 ≤ x = ground arith in
      is_prime_odd x o two
      ∙ is_prime_loop is_prime_fuel 3 x refl (omega arith) (omega arith) (omega arith) o two small
          (two_free x o)
      ∙ reference_odd x two
]
  where
    side : (x % 2 == 0 || ltb x 2) ≡ true → (x % 2 ≡ 0) ⊎ (x < 2)
    side h = ground arith
