-- ===== src/Prelude/Search.antt =====
-- Laws of the bounded search `index_where`.
use Prim.Native.Nat.{ℕ, zero, suc, ◌+◌, ◌<◌}
use mathlib.Core.Path.{◌≡◌, refl}
use mathlib.Core.Bool.{Bool, true, false}
use mathlib.Core.List.{List, [], ◌∷◌, ◌++◌}
use mathlib.Core.Option.{none, some}
use native.Mathlib.Omega.{arith}
use assembly_os.Prelude.Lists.{length, get_or, set, take, index_where}

module _ {ℓ} {A : Type ℓ} (p : A → Bool) where
  -- The index found is in range and passes the test.
  pub index_where-found :
      (n : ℕ) (xs : List A) (i : ℕ) (d : A)
      → index_where p n xs ≡ some i
      → (i < n) × (i < length xs) × (p (get_or xs i d) ≡ true)
  unfolding index_where
  index_where-found zero xs i d e = absurd (ground arith)
  index_where-found (suc n) [] i d e = absurd (ground arith)
  index_where-found (suc n) (x ∷ xs) zero d e = ground arith
  index_where-found (suc n) (x ∷ xs) (suc i) d e = ground (arith, index_where-found n xs i d)

  -- Nothing below the bound passes the test if nothing is found, or stands before what is found.
  pub index_where-none :
      (n : ℕ) (xs : List A) (i : ℕ) (d : A)
      → index_where p n xs ≡ none
      → i < n
      → i < length xs
      → p (get_or xs i d) ≡ false
  unfolding index_where
  index_where-none zero xs i d e h l = absurd (omega arith)
  index_where-none (suc n) [] i d e h l = absurd (omega arith)
  index_where-none (suc n) (x ∷ xs) zero d e h l = ground arith
  index_where-none (suc n) (x ∷ xs) (suc i) d e h l = ground (arith, index_where-none n xs i d)

  -- A write that does not change the outcome of the test at its index does not change the search.
  pub index_where-set_same :
      (n : ℕ) (xs : List A) (i : ℕ) (v d : A)
      → p v ≡ p (get_or xs i d)
      → index_where p n (set xs i v) ≡ index_where p n xs
  unfolding index_where
  index_where-set_same zero xs i v d e = refl
  index_where-set_same (suc n) [] i v d e = refl
  index_where-set_same (suc n) (x ∷ xs) zero v d e = ground arith
  index_where-set_same (suc n) (x ∷ xs) (suc i) v d e =
      ground (arith, index_where-set_same n xs i v d e)

  -- Where nothing was found, a write that passes the test is found.
  pub index_where-set_first :
      (n : ℕ) (xs : List A) (i : ℕ) (v : A)
      → index_where p n xs ≡ none
      → p v ≡ true
      → i < n
      → i < length xs
      → index_where p n (set xs i v) ≡ some i
  unfolding index_where
  index_where-set_first zero xs i v e t h l = absurd (omega arith)
  index_where-set_first (suc n) [] i v e t h l = absurd (omega arith)
  index_where-set_first (suc n) (x ∷ xs) zero v e t h l = ground arith
  index_where-set_first (suc n) (x ∷ xs) (suc i) v e t h l =
      ground (arith, index_where-set_first n xs i v)

  -- The search sees only what stands up to the index that it finds.
  pub index_where-prefix :
      (n m : ℕ) (xs ys : List A) (i : ℕ)
      → index_where p n xs ≡ some i
      → i < m
      → index_where p m (take (i + 1) xs ++ ys) ≡ some i
  unfolding index_where
  index_where-prefix zero m xs ys i e h = absurd (ground arith)
  index_where-prefix (suc n) m [] ys i e h = absurd (ground arith)
  index_where-prefix (suc n) zero (x ∷ xs) ys i e h = absurd (omega arith)
  index_where-prefix (suc n) (suc m) (x ∷ xs) ys zero e h = ground arith
  index_where-prefix (suc n) (suc m) (x ∷ xs) ys (suc i) e h =
      ground (arith, index_where-prefix n m xs ys i)
