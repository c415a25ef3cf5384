-- ===== src/Fs/Paths/Laws.antt =====
-- What the kernel takes for the file name of a path.
use assembly_os.Prelude.{
  ℕ, suc, ◌-◌, ◌<◌, ◌≡◌, ◌≢◌, refl, ap, ◌∙◌, sym, arith, true, false, Bool-cases, inl, inr, none,
  some, List, [], ◌∷◌, ◌++◌, ◌==◌, leb, ltb, minus_one, get_or, take, length, length-append,
  take-append,
}
use assembly_os.Fs.Paths.{
  slash, first_part, tokens, split, last_part, last_char, is_nil, parse_filename,
}

-- A part of a path: no character is the separator.
abbrev pub IsPart : List ℕ → Type 0
IsPart [] = Unit {0}
IsPart (c ∷ cs) = (c ≢ slash) × IsPart cs

tokens-part : (name : List ℕ) → IsPart name → tokens slash name ≡ (name, [])
unfolding tokens
tokens-part [] h = refl
tokens-part (c ∷ cs) h = elim (Bool-cases (c == slash)) [
  | inl same ↦ absurd (h.0 (ground arith))
  | inr other ↦ rw (tokens-part cs h.1, other) refl
]

first_part-last :
    (part : List ℕ) (parts : List (List ℕ)) (name previous : List ℕ)
    → ((before : List ℕ) → last_part before parts ≡ name)
    → last_part previous (first_part part parts) ≡ name
first_part-last [] parts name previous h = h previous
first_part-last (c ∷ cs) parts name previous h = h (c ∷ cs)

-- Behind the first separator comes the name as the last part.
tokens-last :
    (path name previous : List ℕ) (c : ℕ)
    → IsPart (c ∷ name)
    → last_part previous (tokens slash (path ++ (slash ∷ (c ∷ name)))).1 ≡ c ∷ name
unfolding tokens
tokens-last [] name previous c h = rw (tokens-part (c ∷ name) h) refl
tokens-last (x ∷ path) name previous c h = elim (Bool-cases (x == slash)) [
  | inl same ↦ rw same (
      first_part-last (tokens slash (path ++ (slash ∷ (c ∷ name)))).0
        (tokens slash (path ++ (slash ∷ (c ∷ name)))).1 (c ∷ name) previous
        (λ before. tokens-last path name before c h))
  | inr other ↦ rw other (tokens-last path name previous c h)
]

split-last :
    (path name previous : List ℕ) (c : ℕ)
    → IsPart (c ∷ name)
    → last_part previous (split slash (path ++ (slash ∷ (c ∷ name)))) ≡ c ∷ name
unfolding split
split-last path name previous c h =
    first_part-last (tokens slash (path ++ (slash ∷ (c ∷ name)))).0
      (tokens slash (path ++ (slash ∷ (c ∷ name)))).1 (c ∷ name) previous
      (λ before. tokens-last path name before c h)

last_char-second : (x y : ℕ) (ys : List ℕ) → last_char (x ∷ y ∷ ys) ≡ last_char (y ∷ ys)
last_char-second x y ys =
    let longer : suc (suc (length ys)) - 1 ≡ suc (length ys) = omega arith in
    let shorter : suc (length ys) - 1 ≡ length ys = omega arith in
    ap (λ i. get_or (x ∷ y ∷ ys) i 0) longer ∙ ap (λ i. get_or (y ∷ ys) i 0) (sym shorter)

last_char-append :
    (path rest : List ℕ) (c : ℕ) → last_char (path ++ (c ∷ rest)) ≡ last_char (c ∷ rest)
last_char-append [] rest c = refl
last_char-append (x ∷ []) rest c = last_char-second x c rest
last_char-append (x ∷ (y ∷ path)) rest c =
    last_char-second x y (path ++ (c ∷ rest)) ∙ last_char-append (y ∷ path) rest c

last_char-IsPart : (cs : List ℕ) (c : ℕ) → IsPart (c ∷ cs) → last_char (c ∷ cs) ≢ slash
last_char-IsPart [] c h e = h.0 e
last_char-IsPart (d ∷ cs) c h e = last_char-IsPart cs d h.1 (sym (last_char-second c d cs) ∙ e)

is_nil-append : (path rest : List ℕ) (c : ℕ) → is_nil (path ++ (c ∷ rest)) ≡ false
is_nil-append [] rest c = refl
is_nil-append (x ∷ path) rest c = refl

-- The tests of `parse_filename`, decided.
parse_filename-split :
    (input name path : List ℕ)
    → is_nil input ≡ false
    → length input < 1024
    → last_char input ≢ slash
    → last_part input (split slash input) ≡ name
    → length name < 100
    → length name < length input
    → take (length input - length name - 1) input ≡ path
    → parse_filename input ≡ some (0, name, path)
unfolding parse_filename
parse_filename-split input name path full fits inside last short inner front =
    let a : ltb (length input) 1024 ≡ true = ground arith in
    let b : (last_char input == slash) ≡ false = ground arith in
    let c : ltb (length name) 100 ≡ true = ground arith in
    let d : leb (length input) (length name) ≡ false = ground arith in
    rw (full, a, b, last, c, d, front) refl

parse_filename-whole :
    (path name : List ℕ) (c : ℕ)
    → IsPart (c ∷ name)
    → length (c ∷ name) < 100
    → length (path ++ (slash ∷ (c ∷ name))) < 1024
    → parse_filename (path ++ (slash ∷ (c ∷ name))) ≡ some (0, c ∷ name, path)
parse_filename-whole path name c h short fits =
    let n = length-append path (slash ∷ (c ∷ name)) in
    let back : length (path ++ (slash ∷ (c ∷ name))) - length (c ∷ name) - 1 ≡ length path =
      omega (arith, n) in
    parse_filename-split (path ++ (slash ∷ (c ∷ name))) (c ∷ name) path
      (is_nil-append path (c ∷ name) slash) fits
      (λ e.
        last_char-IsPart name c h (
          sym (last_char-second slash c name) ∙ (sym (last_char-append path (c ∷ name) slash) ∙ e)))
      (split-last path name _ c h) short (omega (arith, n))
      (ap (λ i. take i (path ++ (slash ∷ (c ∷ name)))) back
        ∙ take-append (length path) path (slash ∷ (c ∷ name)) refl)

parse_filename-ended :
    (path : List ℕ)
    → length (path ++ (slash ∷ [])) < 1024
    → parse_filename (path ++ (slash ∷ [])) ≡ some (minus_one, [], [])
unfolding parse_filename
parse_filename-ended path fits =
    let a : ltb (length (path ++ (slash ∷ []))) 1024 ≡ true = ground arith in
    rw (is_nil-append path [] slash, a, last_char-append path [] slash) refl

parse_filename-bare : (name : List ℕ) (c : ℕ) → IsPart (c ∷ name) → parse_filename (c ∷ name) ≡ none
unfolding parse_filename split
parse_filename-bare name c h =
    let b : (last_char (c ∷ name) == slash) ≡ false = ground (arith, last_char-IsPart name c h) in
    rw (tokens-part (c ∷ name) h, b) (ground arith)

-- A path of fewer than 1024 characters is parsed into what stands before its last separator and the
-- name behind it, where that name has from 1 to 99 characters. A path that ends in a separator is
-- refused, and a name without a separator makes the code write in front of the buffer `path`.
pub parse_filename_lem :
    (path name : List ℕ) (c : ℕ)
    → IsPart (c ∷ name)
    → length (c ∷ name) < 100
    → length (path ++ (slash ∷ (c ∷ name))) < 1024
    → (parse_filename (path ++ (slash ∷ (c ∷ name))) ≡ some (0, c ∷ name, path))
      × (parse_filename (path ++ (slash ∷ [])) ≡ some (minus_one, [], []))
      × (parse_filename (c ∷ name) ≡ none)
parse_filename_lem path name c h short fits = (
  parse_filename-whole path name c h short fits,
  parse_filename-ended path
      (omega (arith, length-append path (slash ∷ (c ∷ name)), length-append path (slash ∷ []))),
  parse_filename-bare name c h,
)
