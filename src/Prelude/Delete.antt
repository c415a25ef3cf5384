-- ===== src/Prelude/Delete.antt =====
-- Where the elements of an array stand after the deletion of one by a `memmove`.
use Prim.Native.Nat.{ℕ, ◌+◌, ◌-◌, ◌≤◌, ◌<◌}
use mathlib.Core.Path.{◌≡◌, ◌∙◌, ap}
use mathlib.Core.Logic.{◌≢◌, inl, inr}
use mathlib.Core.List.{List}
use native.Mathlib.Omega.{arith}
use assembly_os.Prelude.Tests.{ltb, if◌then◌else◌, Bool-cases}
use assembly_os.Prelude.Lists.{length, get_or, memmove, length-memmove}
use assembly_os.Prelude.Shift.{get_or-memmove_before, get_or-memmove_moved}

-- Where the element at `j` stood before the deletion at `i`.
abbrev pub origin : ℕ → ℕ → ℕ
origin i j = if ltb j i then j else j + 1

pub origin-injective : (i j m : ℕ) → origin i j ≡ origin i m → j ≡ m
origin-injective i j m e = ground arith

module _ {ℓ} {A : Type ℓ} where
  -- The first `n` elements without that at `i`.
  abbrev pub delete : List A → ℕ → ℕ → List A
  delete xs i n = memmove xs i (i + 1) (n - 1 - i)

module _ {ℓ} {A : Type ℓ} (xs : List A) (i n : ℕ) (d : A) (h : i < n) (l : n ≤ length xs) where
  delete_before : (j : ℕ) → j < i → get_or (delete xs i n) j d ≡ get_or xs j d
  delete_before j b = get_or-memmove_before xs i (i + 1) (n - 1 - i) j d (omega arith) b

  delete_after : (j : ℕ) → i ≤ j → j + 1 < n → get_or (delete xs i n) j d ≡ get_or xs (j + 1) d
  delete_after j b m =
      ap (λ m. get_or (delete xs i n) m d) (omega arith)
      ∙ get_or-memmove_moved xs i (i + 1) (n - 1 - i) (j - i) d (omega arith) (omega arith)
          (omega arith)
      ∙ ap (λ m. get_or xs m d) (omega arith)

  pub length-delete : length (delete xs i n) ≡ length xs
  length-delete = length-memmove xs i (i + 1) (n - 1 - i) (omega arith) (omega arith)

  -- Each element that stays was one of the others.
  pub delete-origin :
      (j : ℕ)
      → j + 1 < n
      → (origin i j < n)
        × (origin i j ≢ i)
        × (get_or (delete xs i n) j d ≡ get_or xs (origin i j) d)
  delete-origin j m = elim (Bool-cases (ltb j i)) [
    | inl before ↦ rw before (omega arith, ground arith, delete_before j (ground arith))
    | inr after ↦ rw after (m, ground arith, delete_after j (ground arith) m)
  ]

  -- Each other element stays.
  pub delete-stays : (o : ℕ) → o < n → o ≢ i → (j : ℕ) × (j + 1 < n) × (origin i j ≡ o)
  delete-stays o m ne = elim (Bool-cases (ltb o i)) [
    | inl before ↦ (o, ground arith, ground arith)
    | inr after ↦ (o - 1, ground arith, ground arith)
  ]
