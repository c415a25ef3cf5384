-- ===== src/Serial/Laws.antt =====
-- A byte goes through a serial port as two hexadecimal digits.
use assembly_os.Prelude.{
  ℕ, ◌+◌, ◌*◌, ◌/◌, ◌%◌, ◌<◌, ◌≡◌, arith, ap, ◌∙◌, true, some, List, [], ◌∷◌, ◌++◌, bit_or,
  bit_or_halves, bit_or-zero, if◌then◌else◌, leb,
}
use assembly_os.Serial.{Uart, xtoi, itox, putc, getc, puth, geth, two_digits}

-- The digits that `binascii.hexlify` writes are those of `itox` in lower case.
abbrev pub lower_digit : ℕ → ℕ
lower_digit n = if leb n 9 then 48 + n else 87 + n

pub xtoi-itox : (n : ℕ) → n < 16 → xtoi (itox n) ≡ n
unfolding xtoi itox
xtoi-itox n h = ground arith

pub xtoi-lower_digit : (n : ℕ) → n < 16 → xtoi (lower_digit n) ≡ n
unfolding xtoi
xtoi-lower_digit n h = ground arith

bit_or-double : (a l : ℕ) → bit_or (a * 2) l ≡ bit_or a (l / 2) * 2 + l % 2
bit_or-double a l =
    let e : a * 2 / 2 ≡ a = omega arith in
    omega (arith, bit_or_halves (a * 2) l, ap (λ d. bit_or d (l / 2)) e)

bit_or-nibble : (h l : ℕ) → l < 16 → bit_or (h * 16) l ≡ h * 16 + l
bit_or-nibble h l s = omega (
  arith,
  ap (λ d. bit_or d l) (regroup h),
  bit_or-double (h * 2 * 2 * 2) l,
  bit_or-double (h * 2 * 2) (l / 2),
  bit_or-double (h * 2) (l / 2 / 2),
  bit_or-double h (l / 2 / 2 / 2),
  ap (bit_or h) (emptied l s),
  bit_or-zero h,
)
  where
    regroup : (h : ℕ) → h * 16 ≡ h * 2 * 2 * 2 * 2
    regroup h = omega arith

    emptied : (l : ℕ) → l < 16 → l / 2 / 2 / 2 / 2 ≡ 0
    emptied l s = omega arith

-- The byte that `geth` makes of two characters that are its digits.
pub two_digits_lem : (a b x : ℕ) → x < 256 → xtoi a ≡ x / 16 → xtoi b ≡ x % 16 → two_digits a b ≡ x
two_digits_lem a b x h p q =
    let e : x / 16 * 16 % 256 ≡ x / 16 * 16 = omega arith in
    let f : x % 16 % 256 ≡ x % 16 = omega arith in
    rw (p, q, e, f) (bit_or-nibble (x / 16) (x % 16) (omega arith) ∙ omega arith)

module _ {D : Type 0} (u : Uart D) where
  -- The port takes these characters one after the other.
  pub data Takes : D → List ℕ → D → Type 0 where
    done : {d : D} → Takes d [] d
    next :
        {d e f : D} {c : ℕ} {cs : List ℕ}
        → putc u d c true ≡ some e
        → Takes e cs f
        → Takes d (c ∷ cs) f

  -- The port gives these characters one after the other.
  pub data Gives : D → List ℕ → D → Type 0 where
    nothing : {d : D} → Gives d [] d
    char :
        {d e f : D} {c : ℕ} {cs : List ℕ}
        → getc u d true ≡ some (c, e)
        → Gives e cs f
        → Gives d (c ∷ cs) f

  pub split_Takes :
      (xs ys : List ℕ) {d f : D} → Takes d (xs ++ ys) f → (e : D) × Takes d xs e × Takes e ys f
  split_Takes [] ys {d} t = (d, done, t)
  split_Takes (x ∷ xs) ys (next p t) = let (e, a, b) = split_Takes xs ys t in (e, next p a, b)

  pub split_Gives :
      (xs ys : List ℕ) {d f : D} → Gives d (xs ++ ys) f → (e : D) × Gives d xs e × Gives e ys f
  split_Gives [] ys {d} t = (d, nothing, t)
  split_Gives (x ∷ xs) ys (char p t) = let (e, a, b) = split_Gives xs ys t in (e, char p a, b)

  pub puth-Takes :
      {d e : D} (x : ℕ)
      → Takes d (itox (x / 16 % 16) ∷ itox (x % 16) ∷ []) e
      → puth u d x true ≡ some e
  unfolding puth
  puth-Takes x (next p (next q done)) = rw (p, q)

  pub geth-Gives :
      {d e : D} (x a b : ℕ)
      → x < 256
      → xtoi a ≡ x / 16
      → xtoi b ≡ x % 16
      → Gives d (a ∷ b ∷ []) e
      → geth u d true ≡ some (x, e)
  unfolding geth
  geth-Gives {d} {e} x a b h s t (char p (char q nothing)) =
      rw (p, q) (ap (λ y. some (y, e)) (two_digits_lem a b x h s t))
