-- ===== src/Prelude/Slices.antt =====
-- What `take`, `drop` and an access find in a list of known length with more behind it.
use Prim.Native.Nat.{ℕ, zero, suc, ◌+◌, ◌≤◌}
use mathlib.Core.Path.{◌≡◌, refl, ap, sym, ◌∙◌}
use mathlib.Core.List.{List, [], ◌∷◌, ◌++◌}
use native.Mathlib.Omega.{arith}
use assembly_os.Prelude.Lists.{length, get_or, take, drop}

module _ {ℓ} {A : Type ℓ} where
  pub take-append : (n : ℕ) (xs ys : List A) → length xs ≡ n → take n (xs ++ ys) ≡ xs
  take-append zero [] ys e = refl
  take-append (suc n) [] ys e = absurd (omega arith)
  take-append zero (x ∷ xs) ys e = absurd (omega arith)
  take-append (suc n) (x ∷ xs) ys e = ap (λ zs. x ∷ zs) (take-append n xs ys (omega arith))

  pub drop-append : (n : ℕ) (xs ys : List A) → length xs ≡ n → drop n (xs ++ ys) ≡ ys
  drop-append zero [] ys e = refl
  drop-append (suc n) [] ys e = absurd (omega arith)
  drop-append zero (x ∷ xs) ys e = absurd (omega arith)
  drop-append (suc n) (x ∷ xs) ys e = drop-append n xs ys (omega arith)

  pub drop-append_suc :
      (n : ℕ) (xs ys : List A) (y : A) → length xs ≡ n → drop (suc n) (xs ++ (y ∷ ys)) ≡ ys
  drop-append_suc zero [] ys y e = refl
  drop-append_suc (suc n) [] ys y e = absurd (omega arith)
  drop-append_suc zero (x ∷ xs) ys y e = absurd (omega arith)
  drop-append_suc (suc n) (x ∷ xs) ys y e = drop-append_suc n xs ys y (omega arith)

  pub get_or-append :
      (n : ℕ) (xs ys : List A) (y d : A) → length xs ≡ n → get_or (xs ++ (y ∷ ys)) n d ≡ y
  get_or-append zero [] ys y d e = refl
  get_or-append (suc n) [] ys y d e = absurd (omega arith)
  get_or-append zero (x ∷ xs) ys y d e = absurd (omega arith)
  get_or-append (suc n) (x ∷ xs) ys y d e = get_or-append n xs ys y d (omega arith)

  pub take-take : (n m : ℕ) (xs : List A) → n ≤ m → take n (take m xs) ≡ take n xs
  take-take zero m xs h = refl
  take-take (suc n) zero xs h = absurd (omega arith)
  take-take (suc n) (suc m) [] h = refl
  take-take (suc n) (suc m) (x ∷ xs) h = ap (λ zs. x ∷ zs) (take-take n m xs (omega arith))

  take-nil : (n : ℕ) → take {A = A} n [] ≡ []
  take-nil zero = refl
  take-nil (suc n) = refl

  drop-nil : (n : ℕ) → drop {A = A} n [] ≡ []
  drop-nil zero = refl
  drop-nil (suc n) = refl

  pub take-append_le : (n : ℕ) (xs ys : List A) → n ≤ length xs → take n (xs ++ ys) ≡ take n xs
  take-append_le zero xs ys h = refl
  take-append_le (suc n) [] ys h = absurd (omega arith)
  take-append_le (suc n) (x ∷ xs) ys h = ap (λ zs. x ∷ zs) (take-append_le n xs ys (omega arith))

  pub drop-drop : (n m : ℕ) (xs : List A) → drop m (drop n xs) ≡ drop (n + m) xs
  drop-drop zero m xs = ap (λ k. drop k xs) (omega arith)
  drop-drop (suc n) m [] = drop-nil m ∙ sym (drop-nil (suc n + m))
  drop-drop (suc n) m (x ∷ xs) = drop-drop n m xs ∙ ap (λ k. drop k (x ∷ xs)) (shift n m)
    where
      shift : (n m : ℕ) → suc (n + m) ≡ suc n + m
      shift n m = omega arith

  -- The first part and the first part of the rest.
  pub take-drop : (n m : ℕ) (xs : List A) → take n xs ++ take m (drop n xs) ≡ take (n + m) xs
  take-drop zero m xs = ap (λ k. take k xs) (omega arith)
  take-drop (suc n) m [] = take-nil m ∙ sym (take-nil (suc n + m))
  take-drop (suc n) m (x ∷ xs) =
      ap (λ zs. x ∷ zs) (take-drop n m xs) ∙ ap (λ k. take k (x ∷ xs)) (shift n m)
    where
      shift : (n m : ℕ) → suc (n + m) ≡ suc n + m
      shift n m = omega arith

  pub take-all : (n : ℕ) (xs : List A) → length xs ≡ n → take n xs ≡ xs
  take-all zero [] e = refl
  take-all (suc n) [] e = refl
  take-all zero (x ∷ xs) e = absurd (omega arith)
  take-all (suc n) (x ∷ xs) e = ap (λ zs. x ∷ zs) (take-all n xs (omega arith))
