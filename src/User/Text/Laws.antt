-- ===== src/User/Text/Laws.antt =====
-- question/user/lib/libc.c: what is printed is read back.
use assembly_os.Prelude.{
  ℕ, zero, suc, ◌^◌, ◌≤◌, ◌<◌, ◌≡◌, refl, ap, ◌∙◌, Bool, true, false, none, some, List, [], ◌∷◌,
  arith, ◌==◌, if◌then◌else◌, length, set, drop, sub32, slt, length-set,
}
use assembly_os.User.Text.{
  c_string, atoi_from, atoi, count_digits, write_back, write_digits, write_number, itoa, ss,
  digit_zero, minus_sign, itoa_fuel,
}
use assembly_os.User.Text.Digits.{signed, count_digits_lem}
use assembly_os.User.Text.Printing.{
  closed_digits, write_number_pos, write_number_neg, few_digits, c_string-closed, c_string-minus,
  atoi-digits, atoi-minus,
}

itoa_counts :
    (x v p : ℕ) (b : List ℕ)
    → (if slt x 0 then sub32 0 x else x) ≡ v
    → (x == 2147483648) ≡ false
    → count_digits itoa_fuel v 1 (if slt x 0 then 1 else 0) ≡ some p
    → itoa b x ≡ write_number x v b p
unfolding itoa
itoa_counts x v p b e ne counted = rw (ne, e, counted) refl

pub itoa_pos :
    (v : ℕ) (b : List ℕ)
    → 0 < v
    → v < 1000000000
    → 10 ≤ length b
    → (b' : List ℕ) × (itoa b v ≡ some b') × (atoi (c_string b') ≡ v)
itoa_pos v b positive small room =
    let (m, counted, lo, hi) =
      count_digits_lem 9 itoa_fuel v 1 0 (omega arith) refl (omega arith) small in
    let low : 10 ^ m ≤ v = omega (arith, lo) in
    let high : v < 10 ^ suc m = omega (arith, hi) in
    let sign : slt v 0 ≡ false = ground arith in
    (
      closed_digits m v (drop (suc (suc m)) b),
      itoa_counts v v (suc m) b (rw sign refl) (ground arith)
            (rw sign (counted ∙ ap some (omega arith)))
          ∙ write_number_pos m v b (omega (arith, few_digits m v low small)) low high sign,
      ap atoi (c_string-closed m v (drop (suc (suc m)) b)) ∙ atoi-digits m v high small,
    )

itoa_neg :
    (v c : ℕ) (b : List ℕ)
    → 0 < v
    → v < 1000000000
    → 10 ≤ length b
    → (b' : List ℕ) × (itoa (c ∷ b) (sub32 0 v) ≡ some b') × (atoi (c_string b') ≡ sub32 0 v)
itoa_neg v c b positive small room =
    let (m, counted, lo, hi) =
      count_digits_lem 9 itoa_fuel v 1 1 (omega arith) refl (omega arith) small in
    let low : 10 ^ m ≤ v = omega (arith, lo) in
    let high : v < 10 ^ suc m = omega (arith, hi) in
    let sign : slt (sub32 0 v) 0 ≡ true = ground arith in
    (
      minus_sign ∷ closed_digits m v (drop (suc (suc m)) b),
      itoa_counts (sub32 0 v) v (suc (suc m)) (c ∷ b) (rw sign (omega arith)) (ground arith)
            (rw sign (counted ∙ ap some (omega arith)))
          ∙ write_number_neg m v (sub32 0 v) c b (omega (arith, few_digits m v low small)) low high
              sign,
      ap atoi (c_string-minus (closed_digits m v (drop (suc (suc m)) b)))
          ∙ ap (λ xs. atoi (minus_sign ∷ xs)) (c_string-closed m v (drop (suc (suc m)) b))
          ∙ atoi-minus m v high small,
    )

pub ss-itoa :
    (x : ℕ) (b b' : List ℕ)
    → (x == 0) ≡ false
    → itoa (set b 0 0) x ≡ some b'
    → ss b x ≡ some (b', c_string b')
unfolding ss
ss-itoa x b b' ne printed = rw (ne, printed) refl

pub ss_zero : (b : List ℕ) → ss b 0 ≡ some (set b 0 0, digit_zero ∷ [])
unfolding ss
ss_zero b = refl

atoi_zero : atoi (digit_zero ∷ []) ≡ 0
unfolding atoi atoi_from
atoi_zero = refl

-- The text of 0 would begin in front of the buffer.
itoa-zero : (b : List ℕ) → itoa b 0 ≡ none
unfolding itoa count_digits write_number write_back write_digits
itoa-zero b = ground arith

-- A number of at most nine digits, with either sign and 0 included, is printed by `ss` into a
-- buffer of eleven bytes or more without an access outside the buffer, and `atoi` reads the string
-- that `ss` returns as the same number.
pub atoi-ss :
    (negative : Bool) (v : ℕ) (b : List ℕ)
    → v < 1000000000
    → 11 ≤ length b
    → (b' : List ℕ) × (text : List ℕ) × (ss b (signed negative v) ≡ some (b', text))
      × (atoi text ≡ signed negative v)
unfolding signed
atoi-ss true zero b small room = (set b 0 0, digit_zero ∷ [], ss_zero b, atoi_zero)
atoi-ss false zero b small room = (set b 0 0, digit_zero ∷ [], ss_zero b, atoi_zero)
atoi-ss true (suc v) [] small room = absurd (omega arith)
atoi-ss true (suc v) (c ∷ b) small room =
    let (b', printed, back) = itoa_neg (suc v) 0 b (omega arith) small (omega arith) in
    (b', c_string b', ss-itoa (sub32 0 (suc v)) (c ∷ b) b' (ground arith) printed, back)
atoi-ss false (suc v) b small room =
    let (b', printed, back) =
      itoa_pos (suc v) (set b 0 0) (omega arith) small (omega (arith, length-set b 0 0)) in
    (b', c_string b', ss-itoa (suc v) b b' (ground arith) printed, back)
