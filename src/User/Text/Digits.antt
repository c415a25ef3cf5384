-- ===== src/User/Text/Digits.antt =====
-- question/user/lib/libc.c: the decimal digits that the loops of `itoa` write and `atoi` reads.
use native.Mathlib.Nat.{pow-suc, mul_assoc, one-le-pow}
use assembly_os.Prelude.{
  ℕ, zero, suc, ◌+◌, ◌*◌, ◌/◌, ◌%◌, ◌^◌, ◌≤◌, ◌<◌, ◌≡◌, refl, ap, sym, ◌∙◌, Bool, true, false, some,
  List, [], ◌∷◌, ◌++◌, append_assoc, arith, if◌then◌else◌, ltb, length, set, take, Bool-cases, inl,
  inr, ltb→lt, ltb→le, drop, sub32, length-set,
}
use assembly_os.User.Text.{c_string, atoi_from, count_digits, write_digits}

-- The last `n` decimal digits of `t`.
unfoldable pub digits : ℕ → ℕ → List ℕ
digits zero t = []
digits (suc n) t = digits n (t / 10) ++ (48 + t % 10) ∷ []

-- The word of `t` or of `- t`.
unfoldable pub signed : Bool → ℕ → ℕ
signed negative t = if negative then sub32 0 t else t

module _ {ℓ} {A : Type ℓ} where
  pub drop-set :
      (p : ℕ) (b : List A) (v : A) → p < length b → drop p (set b p v) ≡ v ∷ drop (suc p) b
  drop-set p [] v h = absurd (omega arith)
  drop-set zero (x ∷ b) v h = refl
  drop-set (suc p) (x ∷ b) v h = drop-set p b v (omega arith)

  pub drop-set_before : (q p : ℕ) (b : List A) (v : A) → p < q → drop q (set b p v) ≡ drop q b
  drop-set_before zero p b v h = absurd (omega arith)
  drop-set_before (suc q) p [] v h = refl
  drop-set_before (suc q) zero (x ∷ b) v h = refl
  drop-set_before (suc q) (suc p) (x ∷ b) v h = drop-set_before q p b v (omega arith)

  pub take-set : (n p : ℕ) (b : List A) (v : A) → n ≤ p → take n (set b p v) ≡ take n b
  take-set zero p b v h = refl
  take-set (suc n) p [] v h = refl
  take-set (suc n) zero (x ∷ b) v h = absurd (omega arith)
  take-set (suc n) (suc p) (x ∷ b) v h = ap (λ ys. x ∷ ys) (take-set n p b v (omega arith))

  set-split :
      (p : ℕ) (b : List A) (v : A) → p < length b → set b p v ≡ take p b ++ v ∷ drop (suc p) b
  set-split p [] v h = absurd (omega arith)
  set-split zero (x ∷ b) v h = refl
  set-split (suc p) (x ∷ b) v h = ap (λ ys. x ∷ ys) (set-split p b v (omega arith))

last_round :
    (p t : ℕ) (b : List ℕ)
    → p < length b
    → t < 10
    → write_digits (suc p) t b ≡ some (p, set b p (48 + t % 10))
unfolding write_digits
last_round p t b l h = ground arith

round :
    (p t : ℕ) (b : List ℕ)
    → p < length b
    → 10 ≤ t
    → write_digits (suc p) t b ≡ write_digits p (t / 10) (set b p (48 + t % 10))
unfolding write_digits
round p t b l h = ground arith

-- `t` has `n + 1` digits, and they are written from `base` on, up to the index `p`.
pub write_digits_lem :
    (n base p t : ℕ) (b : List ℕ)
    → p ≡ base + n
    → p < length b
    → 10 ^ n ≤ t
    → t < 10 ^ suc n
    → write_digits (suc p) t b ≡ some (base, take base b ++ (digits (suc n) t ++ drop (suc p) b))
unfolding digits
write_digits_lem zero base p t b e l lo hi =
    last_round p t b l hi
    ∙ ap (λ b'. some (p, b')) (set-split p b (48 + t % 10) l)
    ∙ ap (λ q. some (q, take q b ++ (48 + t % 10) ∷ drop (suc p) b)) (omega arith)
write_digits_lem (suc m) base zero t b e l lo hi = absurd (omega arith)
write_digits_lem (suc m) base (suc p) t b e l lo hi =
    round (suc p) t b l (omega (arith, pow-suc 10 m, one-le-pow m 10))
    ∙ write_digits_lem m base p (t / 10) (set b (suc p) v) (omega arith)
        (omega (arith, length-set b (suc p) v)) (omega (arith, pow-suc 10 m))
        (omega (arith, pow-suc 10 m, pow-suc 10 (suc m)))
    ∙ ap (λ xs. some (base, xs ++ (digits (suc m) (t / 10) ++ drop (suc p) (set b (suc p) v))))
        (take-set base (suc p) b v (omega arith))
    ∙ ap (λ xs. some (base, take base b ++ (digits (suc m) (t / 10) ++ xs)))
        (drop-set (suc p) b v l)
    ∙ ap (λ xs. some (base, take base b ++ xs))
        (sym (append_assoc (digits (suc m) (t / 10)) (v ∷ []) (drop (suc (suc p)) b)))
  where
    v : ℕ
    v = 48 + t % 10

read_digit :
    (negative : Bool) (r t : ℕ) (cs : List ℕ)
    → r * 10 + t % 10 < 4294967296
    → atoi_from negative (signed negative r) ((48 + t % 10) ∷ cs)
      ≡ atoi_from negative (signed negative (r * 10 + t % 10)) cs
unfolding atoi_from signed
read_digit true r t cs h = ap (λ v. atoi_from true v cs) (omega arith)
read_digit false r t cs h = ap (λ v. atoi_from false v cs) (omega arith)

-- Reading goes on behind the digits, with their number added.
pub atoi_from-digits :
    (negative : Bool) (n r t : ℕ) (cs : List ℕ)
    → t < 10 ^ n
    → r * 10 ^ n + t < 4294967296
    → atoi_from negative (signed negative r) (digits n t ++ cs)
      ≡ atoi_from negative (signed negative (r * 10 ^ n + t)) cs
unfolding digits
atoi_from-digits negative zero r t cs h l =
    ap (λ v. atoi_from negative (signed negative v) cs) (omega arith)
atoi_from-digits negative (suc n) r t cs h l =
    ap (atoi_from negative (signed negative r))
      (append_assoc (digits n (t / 10)) ((48 + t % 10) ∷ []) cs)
    ∙ atoi_from-digits negative n r (t / 10) ((48 + t % 10) ∷ cs) (omega (arith, pow-suc 10 n))
        (omega (arith, shifted))
    ∙ read_digit negative (r * 10 ^ n + t / 10) t cs (omega (arith, shifted))
    ∙ ap (λ v. atoi_from negative (signed negative v) cs) (omega (arith, shifted))
  where
    shifted : r * 10 ^ suc n ≡ r * 10 ^ n * 10
    shifted = ap (λ x. r * x) (pow-suc 10 n) ∙ sym (mul_assoc r (10 ^ n) 10)

c_string_digit : (t : ℕ) (cs : List ℕ) → c_string ((48 + t % 10) ∷ cs) ≡ (48 + t % 10) ∷ c_string cs
unfolding c_string
c_string_digit t cs = ground arith

pub c_string-digits :
    (n t : ℕ) (cs : List ℕ) → c_string (digits n t ++ cs) ≡ digits n t ++ c_string cs
unfolding digits
c_string-digits zero t cs = refl
c_string-digits (suc n) t cs =
    ap c_string (append_assoc (digits n (t / 10)) ((48 + t % 10) ∷ []) cs)
    ∙ c_string-digits n (t / 10) ((48 + t % 10) ∷ cs)
    ∙ ap (λ xs. digits n (t / 10) ++ xs) (c_string_digit t cs)
    ∙ sym (append_assoc (digits n (t / 10)) ((48 + t % 10) ∷ []) (c_string cs))

count_round :
    (fuel t n p : ℕ)
    → n ≤ t
    → t < 1000000000
    → count_digits (suc fuel) t n p ≡ count_digits fuel t (n * 10 % 4294967296) (p + 1)
unfolding count_digits
count_round fuel t n p h l = ground arith

count_end : (fuel t n p : ℕ) → t < n → n ≤ 1000000000 → count_digits (suc fuel) t n p ≡ some p
unfolding count_digits
count_end fuel t n p h l = ground arith

-- The count of the digits, from `p` on.
pub count_digits_lem :
    (g fuel t n p : ℕ)
    → g < fuel
    → n * 10 ^ g ≡ 1000000000
    → n ≤ t
    → t < 1000000000
    → (m : ℕ) × (count_digits fuel t n p ≡ some (p + suc m))
      × (n * 10 ^ m ≤ t)
      × (t < n * 10 ^ suc m)
count_digits_lem zero fuel t n p l e lo hi = absurd (omega arith)
count_digits_lem (suc g) zero t n p l e lo hi = absurd (omega arith)
count_digits_lem (suc g) (suc zero) t n p l e lo hi = absurd (omega arith)
count_digits_lem (suc g) (suc (suc fuel)) t n p l e lo hi = elim (Bool-cases (ltb t (n * 10))) [
  | inl less ↦ (
    0,
    first ∙ count_end fuel t (n * 10) (p + 1) (ltb→lt t (n * 10) less) small,
    omega arith,
    omega (arith, ltb→lt t (n * 10) less),
  )
  | inr more ↦ later (
      count_digits_lem g (suc fuel) t (n * 10) (p + 1) (omega arith) scaled (ltb→le t (n * 10) more)
        hi)
]
  where
    scaled : n * 10 * 10 ^ g ≡ 1000000000
    scaled = mul_assoc n 10 (10 ^ g) ∙ ap (λ x. n * x) (omega (arith, pow-suc 10 g)) ∙ e

    small : n * 10 ≤ 1000000000
    small = grind (arith, scaled, one-le-pow g 10)

    first : count_digits (suc (suc fuel)) t n p ≡ count_digits (suc fuel) t (n * 10) (p + 1)
    first =
        count_round (suc fuel) t n p lo hi
        ∙ ap (λ x. count_digits (suc fuel) t x (p + 1)) (omega (arith, small))

    longer : (m : ℕ) → n * 10 * 10 ^ m ≡ n * 10 ^ suc m
    longer m = mul_assoc n 10 (10 ^ m) ∙ ap (λ x. n * x) (omega (arith, pow-suc 10 m))

    later :
        (m : ℕ) × (count_digits (suc fuel) t (n * 10) (p + 1) ≡ some (p + 1 + suc m))
          × (n * 10 * 10 ^ m ≤ t)
          × (t < n * 10 * 10 ^ suc m)
        → (m : ℕ) × (count_digits (suc (suc fuel)) t n p ≡ some (p + suc m))
          × (n * 10 ^ m ≤ t)
          × (t < n * 10 ^ suc m)
    later (m, counted, low, high) = (
      suc m,
      first ∙ counted ∙ ap some (omega arith),
      omega (arith, longer m, low),
      omega (arith, longer (suc m), high),
    )
