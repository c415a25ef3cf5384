-- ===== src/User/Text/Printing.antt =====
-- question/user/lib/libc.c: what the parts of `itoa` write, and what `atoi` makes of it.
use native.Mathlib.Nat.{pow-le-pow_right}
use assembly_os.Prelude.{
  ℕ, zero, suc, ◌+◌, ◌/◌, ◌%◌, ◌^◌, ◌≤◌, ◌<◌, ◌≡◌, refl, ap, sym, ◌∙◌, true, false, some, List, [],
  ◌∷◌, ◌++◌, append-nil, arith, ltb, length, set, take, drop, sub32, slt, inl, inr, Bool-cases,
  ltb→lt, ltb→le, length-set,
}
use assembly_os.User.Text.{
  c_string, atoi_from, atoi, write_back, write_digits, write_number, sign, minus_sign,
}
use assembly_os.User.Text.Digits.{
  digits, signed, drop-set, take-set, write_digits_lem, atoi_from-digits, c_string-digits,
}

-- The digits and the closing 0, in front of the rest of the buffer.
abbrev pub closed_digits : ℕ → ℕ → List ℕ → List ℕ
closed_digits m v rest = digits (suc m) v ++ 0 ∷ rest

pub write_back_lem :
    (p v : ℕ) (b : List ℕ) → p < length b → write_back (p + 1) v b ≡ some (p, set b p v)
unfolding write_back
write_back_lem p v b h = ground arith

-- The digits of a buffer that is closed behind them.
pub write_closed :
    (base p m v : ℕ) (b : List ℕ)
    → p ≡ base + m
    → suc p < length b
    → 10 ^ m ≤ v
    → v < 10 ^ suc m
    → write_digits (suc p) v (set b (suc p) 0)
      ≡ some (base, take base b ++ closed_digits m v (drop (suc (suc p)) b))
write_closed base p m v b e l lo hi =
    write_digits_lem m base p v (set b (suc p) 0) e (omega (arith, length-set b (suc p) 0)) lo hi
    ∙ ap (λ xs. some (base, xs ++ (digits (suc m) v ++ drop (suc p) (set b (suc p) 0))))
        (take-set base (suc p) b 0 (omega arith))
    ∙ ap (λ xs. some (base, take base b ++ (digits (suc m) v ++ xs))) (drop-set (suc p) b 0 l)

pub sign_pos : (x p : ℕ) (b : List ℕ) → slt x 0 ≡ false → sign x p b ≡ some b
unfolding sign
sign_pos x p b h = ground arith

pub sign_neg : (x c : ℕ) (b : List ℕ) → slt x 0 ≡ true → sign x 1 (c ∷ b) ≡ some (minus_sign ∷ b)
unfolding sign
sign_neg x c b h = ground arith

pub write_number_pos :
    (m v : ℕ) (b : List ℕ)
    → suc m < length b
    → 10 ^ m ≤ v
    → v < 10 ^ suc m
    → slt v 0 ≡ false
    → write_number v v b (suc m) ≡ some (closed_digits m v (drop (suc (suc m)) b))
unfolding write_number
write_number_pos m v b l lo hi positive =
    rw
      (
        write_back_lem (suc m) 0 b l,
        write_closed 0 m m v b (omega arith) l lo hi,
        sign_pos v 0 (closed_digits m v (drop (suc (suc m)) b)) positive,
      )
      refl

pub write_number_neg :
    (m v x c : ℕ) (b : List ℕ)
    → suc m < length b
    → 10 ^ m ≤ v
    → v < 10 ^ suc m
    → slt x 0 ≡ true
    → write_number x v (c ∷ b) (suc (suc m))
      ≡ some (minus_sign ∷ closed_digits m v (drop (suc (suc m)) b))
unfolding write_number
write_number_neg m v x c b l lo hi negative =
    rw
      (
        write_back_lem (suc (suc m)) 0 (c ∷ b) (omega arith),
        write_closed 1 (suc m) m v (c ∷ b) (omega arith) (omega arith) lo hi,
        sign_neg x c (closed_digits m v (drop (suc (suc m)) b)) negative,
      )
      refl

-- Below 10 ^ 9 there are at most 9 digits.
pub few_digits : (m v : ℕ) → 10 ^ m ≤ v → v < 1000000000 → m < 9
few_digits m v lo small = elim (Bool-cases (ltb m 9)) [
  | inl less ↦ ltb→lt m 9 less
  | inr more ↦ absurd (omega (arith, pow-le-pow_right {n = 10} (omega arith) (ltb→le m 9 more)))
]

-- The string in front of the closing 0.
pub c_string-closed :
    (m v : ℕ) (rest : List ℕ) → c_string (closed_digits m v rest) ≡ digits (suc m) v
unfolding c_string
c_string-closed m v rest = c_string-digits (suc m) v (0 ∷ rest) ∙ append-nil (digits (suc m) v)

-- The digits begin with a digit, not with a sign.
pub digits_first : (n t : ℕ) → (d : ℕ) × (rest : List ℕ) × (digits (suc n) t ≡ (48 + d) ∷ rest)
unfolding digits
digits_first zero t = (t % 10, [], refl)
digits_first (suc n) t =
    let (d, rest, e) = digits_first n (t / 10) in
    (d, rest ++ (48 + t % 10) ∷ [], ap (λ xs. xs ++ (48 + t % 10) ∷ []) e)

pub atoi_unsigned :
    (d : ℕ) (rest : List ℕ) → atoi ((48 + d) ∷ rest) ≡ atoi_from false 0 ((48 + d) ∷ rest)
unfolding atoi
atoi_unsigned d rest = ground arith

pub c_string-minus : (xs : List ℕ) → c_string (minus_sign ∷ xs) ≡ minus_sign ∷ c_string xs
unfolding c_string
c_string-minus xs = refl

pub atoi-digits : (m v : ℕ) → v < 10 ^ suc m → v < 1000000000 → atoi (digits (suc m) v) ≡ v
unfolding atoi_from signed
atoi-digits m v hi small =
    let (d, rest, e) = digits_first m v in
    ap atoi e
    ∙ atoi_unsigned d rest
    ∙ ap (atoi_from false 0) (sym e ∙ sym (append-nil (digits (suc m) v)))
    ∙ atoi_from-digits false (suc m) 0 v [] hi (omega arith)
    ∙ omega arith

pub atoi-minus :
    (m v : ℕ) → v < 10 ^ suc m → v < 1000000000 → atoi (minus_sign ∷ digits (suc m) v) ≡ sub32 0 v
unfolding atoi atoi_from signed
atoi-minus m v hi small =
    ap (atoi_from true 0) (sym (append-nil (digits (suc m) v)))
    ∙ atoi_from-digits true (suc m) 0 v [] hi (omega arith)
    ∙ ap (sub32 0) (omega arith)
