-- ===== src/User/Commands/Parsing.antt =====
-- question/user/lib/libc.c: strings in buffers, and the parts of a command line.
use native.Mathlib.Numerals.{add-one}
use assembly_os.Prelude.{
  ℕ, zero, suc, ◌+◌, ◌-◌, ◌≤◌, ◌<◌, ◌≡◌, ◌≢◌, refl, ◌∙◌, ap, true, some, List, [], ◌∷◌, ◌++◌, arith,
  ◌==◌, ltb, leb, length, drop, replicate, Bool-cases, inl, inr, length-append, drop-append_suc,
}
use assembly_os.Fs.Paths.{tokens, split, first_part}
use assembly_os.User.Text.{c_string}
use assembly_os.User.Commands.{space, strcpy, memcpy, parse_args, parse_words, parse_cmd}

-- No character ends the string.
abbrev pub IsText : List ℕ → Type 0
IsText [] = Unit {0}
IsText (c ∷ cs) = (c ≢ 0) × IsText cs

-- Nor is one a space.
abbrev pub IsWord : List ℕ → Type 0
IsWord [] = Unit {0}
IsWord (c ∷ cs) = (c ≢ 0) × (c ≢ space) × IsWord cs

pub tokens-word : (w rest : List ℕ) → IsWord w → (tokens space (w ++ space ∷ rest)).0 ≡ w
unfolding tokens
tokens-word [] rest h = refl
tokens-word (c ∷ w) rest h = elim (Bool-cases (c == space)) [
  | inl same ↦ absurd (h.1 (ground arith))
  | inr other ↦ rw other (ap (λ cs. c ∷ cs) (tokens-word w rest (h.2)))
]

pub split-word :
    (c : ℕ) (w rest : List ℕ)
    → IsWord (c ∷ w)
    → split space (c ∷ (w ++ space ∷ rest)) ≡ (c ∷ w) ∷ (tokens space (c ∷ (w ++ space ∷ rest))).1
unfolding split
split-word c w rest h =
    ap (λ part. first_part part (tokens space (c ∷ (w ++ space ∷ rest))).1)
      (tokens-word (c ∷ w) rest h)

pub drop-replicate_suc :
    (m n : ℕ) → m < n → drop {A = ℕ} m (replicate n 0) ≡ 0 ∷ replicate (n - m - 1) 0
drop-replicate_suc m zero h = absurd (omega arith)
drop-replicate_suc zero (suc n) h = ap (λ k. 0 ∷ replicate k 0) (omega arith)
drop-replicate_suc (suc m) (suc n) h =
    drop-replicate_suc m n (omega arith) ∙ ap (λ k. 0 ∷ replicate k 0) (omega arith)

pub c_string-text : (s rest : List ℕ) → IsText s → c_string (s ++ 0 ∷ rest) ≡ s
unfolding c_string
c_string-text [] rest h = refl
c_string-text (c ∷ s) rest h = elim (Bool-cases (c == 0)) [
  | inl same ↦ absurd (h.0 (ground arith))
  | inr other ↦ rw other (ap (λ cs. c ∷ cs) (c_string-text s rest (h.1)))
]

pub c_string-zeros :
    (s : List ℕ) (n : ℕ)
    → IsText s
    → length s < n
    → c_string (s ++ drop (length s) (replicate n 0)) ≡ s
c_string-zeros s n h l =
    ap (λ xs. c_string (s ++ xs)) (drop-replicate_suc (length s) n l)
    ∙ c_string-text s (replicate (n - length s - 1) 0) h

pub word-IsText : (w : List ℕ) → IsWord w → IsText w
word-IsText [] h = tt
word-IsText (c ∷ w) h = (h.0, word-IsText w (h.2))

pub strcpy_lem :
    (buffer s : List ℕ)
    → length s < length buffer
    → strcpy buffer s ≡ some (s ++ 0 ∷ drop (length s + 1) buffer)
unfolding strcpy
strcpy_lem buffer s h = ground arith

pub memcpy_lem :
    (buffer s : List ℕ)
    → length s ≤ length buffer
    → memcpy buffer s ≡ some (s ++ drop (length s) buffer)
unfolding memcpy
memcpy_lem buffer s h = ground arith

pub parse_args_lem :
    (word rest args : List ℕ)
    → length rest ≤ length args
    → parse_args (word ++ space ∷ rest) word args ≡ some (rest ++ drop (length rest) args)
unfolding parse_args
parse_args_lem word [] args h =
    elim (Bool-cases (leb (length (word ++ space ∷ [])) (length word + 1))) [
      | inl short ↦ rw short refl
      | inr long ↦ absurd (ground (arith, length-append word (space ∷ [])))
    ]
parse_args_lem word (c ∷ rest) args h =
    elim (Bool-cases (leb (length (word ++ space ∷ (c ∷ rest))) (length word + 1))) [
      | inl short ↦ absurd (ground (arith, length-append word (space ∷ (c ∷ rest))))
      | inr long ↦
          rw (long, add-one, drop-append_suc (length word) word (c ∷ rest) space refl)
            (memcpy_lem args (c ∷ rest) h)
    ]

-- A word, a space and a rest are told apart.
pub parse_cmd_lem :
    (c : ℕ) (w rest cmd args : List ℕ)
    → IsWord (c ∷ w)
    → length (c ∷ w) + suc (length rest) < 1024
    → length (c ∷ w) < length cmd
    → length rest ≤ length args
    → parse_cmd (c ∷ (w ++ space ∷ rest)) cmd args
      ≡ some (record {
        status = 0;
        cmd = (c ∷ w) ++ 0 ∷ drop (length (c ∷ w) + 1) cmd;
        args = rest ++ drop (length rest) args;
      })
unfolding parse_cmd parse_words
parse_cmd_lem c w rest cmd args h fits room space_left =
    rw
      (
        long_enough,
        split-word c w rest h,
        strcpy_lem cmd (c ∷ w) room,
        parse_args_lem (c ∷ w) rest args space_left,
      )
      refl
  where
    long_enough : ltb (length (c ∷ (w ++ space ∷ rest))) 1024 ≡ true
    long_enough = ground (arith, length-append w (space ∷ rest))
