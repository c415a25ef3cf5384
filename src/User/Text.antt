-- ===== src/User/Text.antt =====
-- question/user/lib/libc.c: numbers as text. A string is the list of its characters before the
-- closing 0; a buffer is a list, and `none` is an access outside it or a loop that is out of fuel.
pub mod Digits
pub mod Laws
pub mod Printing
use assembly_os.Prelude.{
  ℕ, zero, suc, ◌+◌, ◌*◌, ◌/◌, ◌%◌, Bool, true, false, Option, none, some, List, [], ◌∷◌, ◌==◌,
  if◌then◌else◌, ◌>>=◌, ltb, length, set, add32, sub32, slt,
}

abbrev pub minus_sign : ℕ
minus_sign = 45

abbrev pub plus_sign : ℕ
plus_sign = 43

abbrev pub digit_zero : ℕ
digit_zero = 48

-- The string that a buffer holds.
unfoldable pub c_string : List ℕ → List ℕ
c_string [] = []
c_string (c ∷ cs) = if c == 0 then [] else c ∷ c_string cs

-- The loop of `atoi`: `negative` is `s`, the sums wrap.
unfoldable pub atoi_from : Bool → ℕ → List ℕ → ℕ
atoi_from negative r [] = r
atoi_from negative r (c ∷ cs) =
    let tens = r * 10 % 4294967296 in
    let digit = sub32 c digit_zero in
    atoi_from negative (if negative then sub32 tens digit else add32 tens digit) cs

unfoldable pub atoi : List ℕ → ℕ
unfolding atoi_from
atoi [] = 0
atoi (c ∷ cs) =
    if c == minus_sign
    then atoi_from true 0 cs
    else (if c == plus_sign then atoi_from false 0 cs else atoi_from false 0 (c ∷ cs))

-- The loop `while (t >= n)`: where `p` ends.
unfoldable pub count_digits : ℕ → ℕ → ℕ → ℕ → Option ℕ
count_digits zero t n p = none
count_digits (suc fuel) t n p =
    let more = count_digits fuel t (n * 10 % 4294967296) (p + 1) in if slt t n then some p else more

-- `*p-- = v`, where `end` is p + 1.
unfoldable pub write_back : ℕ → ℕ → List ℕ → Option (ℕ × List ℕ)
write_back zero v b = none
write_back (suc p) v b = if ltb p (length b) then some (p, set b p v) else none

-- The loop `do ... while (t)`: each round goes one place to the left.
unfoldable pub write_digits : ℕ → ℕ → List ℕ → Option (ℕ × List ℕ)
unfolding write_back
write_digits zero t b = none
write_digits (suc p) t b =
    let left = write_digits p (t / 10) (set b p (digit_zero + t % 10)) in
    if ltb p (length b)
    then (if t / 10 == 0 then some (p, set b p (digit_zero + t % 10)) else left)
    else none

-- The loop of `itoa` makes at most 10 rounds below 10 ^ 9.
abbrev pub itoa_fuel : ℕ
itoa_fuel = 32

-- `if (x < 0) *p-- = '-';`
unfoldable pub sign : ℕ → ℕ → List ℕ → Option (List ℕ)
unfolding write_back
sign x p b =
    if slt x 0 then (do (left, signed) ← write_back p minus_sign b; some signed) else some b

-- What follows the count of digits.
unfoldable pub write_number : ℕ → ℕ → List ℕ → ℕ → Option (List ℕ)
unfolding write_back write_digits sign
write_number x t b p = do
  (q, closed) ← write_back (p + 1) 0 b
  (rest, written) ← write_digits q t closed
  sign x rest written

-- The negation of the least int, which C leaves undefined, is `none`.
unfoldable pub itoa : List ℕ → ℕ → Option (List ℕ)
itoa r x =
    if x == 2147483648
    then none
    else (let t = if slt x 0 then sub32 0 x else x in
        do p ← count_digits itoa_fuel t 1 (if slt x 0 then 1 else 0); write_number x t r p)

-- `ss`: the buffer that it leaves, and the string that it returns, which for 0 is not in the
-- buffer.
unfoldable pub ss : List ℕ → ℕ → Option (List ℕ × List ℕ)
ss b x =
    if x == 0
    then some (set b 0 0, digit_zero ∷ [])
    else (do b' ← itoa (set b 0 0) x; some (b', c_string b'))
