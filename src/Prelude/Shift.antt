-- ===== src/Prelude/Shift.antt =====
-- The deletion of one element by a `memmove` of what follows it.
use Prim.Native.Nat.{ℕ, zero, suc, ◌+◌, ◌≤◌, ◌<◌}
use mathlib.Core.Path.{◌≡◌, refl, ◌∙◌, ap, sym}
use mathlib.Core.Bool.{Bool, true, false≢true}
use mathlib.Core.Logic.{inl, inr}
use mathlib.Core.List.{List, [], ◌∷◌, ◌++◌}
use mathlib.Core.Option.{none, some}
use native.Mathlib.Omega.{arith}
use assembly_os.Prelude.Tests.{Option-cases}
use assembly_os.Prelude.Lists.{
  length, get_or, set, take, drop, memmove, index_where, length-take, length-drop,
}
use assembly_os.Prelude.Search.{index_where-found, index_where-none}

module _ {ℓ} {A : Type ℓ} where
  get_or-append_left :
      (xs ys : List A) (i : ℕ) (d : A) → i < length xs → get_or (xs ++ ys) i d ≡ get_or xs i d
  get_or-append_left [] ys i d h = absurd (omega arith)
  get_or-append_left (x ∷ xs) ys zero d h = refl
  get_or-append_left (x ∷ xs) ys (suc i) d h = get_or-append_left xs ys i d (omega arith)

  get_or-append_right :
      (xs ys : List A) (i j : ℕ) (d : A) → i ≡ length xs + j → get_or (xs ++ ys) i d ≡ get_or ys j d
  get_or-append_right [] ys i j d h = ap (λ n. get_or ys n d) (omega arith)
  get_or-append_right (x ∷ xs) ys zero j d h = absurd (omega arith)
  get_or-append_right (x ∷ xs) ys (suc i) j d h = get_or-append_right xs ys i j d (omega arith)

  get_or-take :
      (n : ℕ) (xs : List A) (i : ℕ) (d : A) → i < n → get_or (take n xs) i d ≡ get_or xs i d
  get_or-take zero xs i d h = absurd (omega arith)
  get_or-take (suc n) [] i d h = refl
  get_or-take (suc n) (x ∷ xs) zero d h = refl
  get_or-take (suc n) (x ∷ xs) (suc i) d h = get_or-take n xs i d (omega arith)

  get_or-drop :
      (n : ℕ) (xs : List A) (i j : ℕ) (d : A) → j ≡ n + i → get_or (drop n xs) i d ≡ get_or xs j d
  get_or-drop zero xs i j d h = ap (λ m. get_or xs m d) (omega arith)
  get_or-drop (suc n) [] i j d h = refl
  get_or-drop (suc n) (x ∷ xs) i zero d h = absurd (omega arith)
  get_or-drop (suc n) (x ∷ xs) i (suc j) d h = get_or-drop n xs i j d (omega arith)

  -- The elements before the hole stay.
  pub get_or-memmove_before :
      (xs : List A) (dst src n i : ℕ) (d : A)
      → dst ≤ length xs
      → i < dst
      → get_or (memmove xs dst src n) i d ≡ get_or xs i d
  get_or-memmove_before xs dst src n i d l h =
      get_or-append_left (take dst xs) (take n (drop src xs) ++ drop (dst + n) xs) i d
        (omega (arith, length-take dst xs l))
      ∙ get_or-take dst xs i d h

  -- The elements that move.
  pub get_or-memmove_moved :
      (xs : List A) (dst src n i : ℕ) (d : A)
      → dst ≤ length xs
      → src + n ≤ length xs
      → i < n
      → get_or (memmove xs dst src n) (dst + i) d ≡ get_or xs (src + i) d
  get_or-memmove_moved xs dst src n i d l m h =
      get_or-append_right (take dst xs) (take n (drop src xs) ++ drop (dst + n) xs) (dst + i) i d
        (omega (arith, length-take dst xs l))
      ∙ get_or-append_left (take n (drop src xs)) (drop (dst + n) xs) i d
          (omega (arith, length-take n (drop src xs) (omega (arith, length-drop src xs))))
      ∙ get_or-take n (drop src xs) i d h
      ∙ get_or-drop src xs i (src + i) d refl

  -- A search finds the only element that passes its test.
  pub index_where-only :
      (p : A → Bool) (n : ℕ) (xs : List A) (i : ℕ) (d : A)
      → i < n
      → i < length xs
      → p (get_or xs i d) ≡ true
      → ((j : ℕ) → j < n → j < length xs → p (get_or xs j d) ≡ true → j ≡ i)
      → index_where p n xs ≡ some i
  index_where-only p n xs i d h l t only = elim (Option-cases (index_where p n xs)) [
    | inl e ↦ absurd (false≢true (sym (index_where-none p n xs i d e h l) ∙ t))
    | inr (j, e) ↦ let (a, b, c) = index_where-found p n xs j d e in e ∙ ap some (only j a b c)
  ]

  -- A search that nothing passes finds nothing.
  pub index_where-nothing :
      (p : A → Bool) (n : ℕ) (xs : List A) (d : A)
      → ((j : ℕ) → j < n → j < length xs → p (get_or xs j d) ≡ true → ⊥)
      → index_where p n xs ≡ none
  index_where-nothing p n xs d fails = elim (Option-cases (index_where p n xs)) [
    | inl e ↦ e
    | inr (j, e) ↦ let (a, b, c) = index_where-found p n xs j d e in absurd (fails j a b c)
  ]

  -- An element written past the first `n` does not hide what a search has found among them.
  pub index_where-set_past :
      (p : A → Bool) (n : ℕ) (xs : List A) (i : ℕ) (v : A)
      → index_where p n xs ≡ some i
      → index_where p (suc n) (set xs n v) ≡ some i
  unfolding index_where
  index_where-set_past p zero xs i v e = absurd (ground arith)
  index_where-set_past p (suc n) [] i v e = absurd (ground arith)
  index_where-set_past p (suc n) (x ∷ xs) zero v e = ground arith
  index_where-set_past p (suc n) (x ∷ xs) (suc i) v e =
      ground (arith, index_where-set_past p n xs i v)

  -- An element that passes, written after `n` that do not, is found.
  pub index_where-set_end :
      (p : A → Bool) (n : ℕ) (xs : List A) (v : A)
      → index_where p n xs ≡ none
      → p v ≡ true
      → n < length xs
      → index_where p (suc n) (set xs n v) ≡ some n
  unfolding index_where
  index_where-set_end p n [] v e t h = absurd (omega arith)
  index_where-set_end p zero (x ∷ xs) v e t h = rw t refl
  index_where-set_end p (suc n) (x ∷ xs) v e t h = ground (arith, index_where-set_end p n xs v)
