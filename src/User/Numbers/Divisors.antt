-- ===== src/User/Numbers/Divisors.antt =====
-- question/user/bin/P4.c: the greatest common divisor by subtraction.
use Prim.Native.Nat.{◌∣◌}
use native.Mathlib.Nat.{dvd_refl, dvd-add, dvd-sub}
use assembly_os.Prelude.{
  ℕ, zero, suc, ◌+◌, ◌-◌, ◌≤◌, ◌<◌, ◌≡◌, refl, ◌∙◌, ap, subst, none, some, ◌↔◌, inl, inr, ltb,
  arith, Bool-cases, ltb→lt, ltb→le,
}
use assembly_os.User.Numbers.{gcd}

gcd_same : (fuel x y : ℕ) → x ≡ y → gcd (suc fuel) x y ≡ some x
unfolding gcd
gcd_same fuel x y e = ground arith

gcd_left : (fuel x y : ℕ) → y < x → gcd (suc fuel) x y ≡ gcd fuel (x - y) y
unfolding gcd
gcd_left fuel x y h = ground arith

gcd_right : (fuel x y : ℕ) → x < y → gcd (suc fuel) x y ≡ gcd fuel x (y - x)
unfolding gcd
gcd_right fuel x y h = ground arith

gcd_out : (x y : ℕ) → gcd 0 x y ≡ none
unfolding gcd
gcd_out x y = refl

-- The result is a greatest common divisor, seen by the number `k`.
pub record IsGcd (k x y g : ℕ) : Type 0 where
  pub left : g ∣ x
  pub right : g ∣ y
  pub common : ((k ∣ x) × (k ∣ y)) ↔ (k ∣ g)

swap-IsGcd : {k x y g : ℕ} → IsGcd k x y g → IsGcd k y x g
swap-IsGcd h = record {
  left = h.right;
  right = h.left;
  common = (λ p. h.common.0 (p.1, p.0), λ d. ((h.common.1 d).1, (h.common.1 d).0));
}

-- A common divisor of x - y and y is one of x and y.
add-IsGcd : {k x y g : ℕ} → y < x → IsGcd k (x - y) y g → IsGcd k x y g
add-IsGcd {k} {x} {y} {g} l h = record {
  left = total g h.left h.right;
  right = h.right;
  common = (
    λ p. h.common.0 (dvd-sub k (p.0) (p.1), p.1),
    λ d. (total k (h.common.1 d).0 (h.common.1 d).1, (h.common.1 d).1),
  );
}
  where
    total : (d : ℕ) → d ∣ x - y → d ∣ y → d ∣ x
    total d p q = subst (◌∣◌ d) (omega arith) (dvd-add d p q)

abbrev Finds : ℕ → ℕ → ℕ → ℕ → Type 0
Finds fuel k x y = (g : ℕ) × (gcd fuel x y ≡ some g) × IsGcd k x y g

stop : (fuel k x y : ℕ) → x ≡ y → Finds (suc fuel) k x y
stop fuel k x y e = (
  x,
  gcd_same fuel x y e,
  record {
    left = dvd_refl x;
    right = subst (◌∣◌ x) e (dvd_refl x);
    common = (λ p. p.0, λ d. (d, subst (◌∣◌ k) e d));
  },
)

subtract_left : (fuel k x y : ℕ) → y < x → Finds fuel k (x - y) y → Finds (suc fuel) k x y
subtract_left fuel k x y l (g, e, h) = (g, gcd_left fuel x y l ∙ e, add-IsGcd l h)

subtract_right : (fuel k x y : ℕ) → x < y → Finds fuel k x (y - x) → Finds (suc fuel) k x y
subtract_right fuel k x y l (g, e, h) =
    (g, gcd_right fuel x y l ∙ e, swap-IsGcd (add-IsGcd l (swap-IsGcd h)))

gcd_fuel : (fuel k x y : ℕ) → 0 < x → 0 < y → x + y ≤ fuel → Finds fuel k x y
gcd_fuel zero k x y px py h = absurd (omega arith)
gcd_fuel (suc fuel) k x y px py h = elim (Bool-cases (ltb y x)) [
  | inl less ↦
      let l : y < x = ltb→lt y x less in
      subtract_left fuel k x y l (gcd_fuel fuel k (x - y) y (omega arith) py (omega arith))
  | inr more ↦ elim (Bool-cases (ltb x y)) [
    | inl less ↦
        let l : x < y = ltb→lt x y less in
        subtract_right fuel k x y l (gcd_fuel fuel k x (y - x) px (omega arith) (omega arith))
    | inr same ↦ stop fuel k x y (omega (arith, ltb→le y x more, ltb→le x y same))
  ]
]

-- For two numbers above 0 the function of P4.c returns within x + y calls. The number that it
-- returns divides both, and the numbers `k` that divide both are those that divide it.
pub gcd_lem : (k x y : ℕ) → 0 < x → 0 < y → (g : ℕ) × (gcd (x + y) x y ≡ some g) × IsGcd k x y g
gcd_lem k x y px py = gcd_fuel (x + y) k x y px py (omega arith)

-- With 0 on one side and not on the other it never returns.
pub gcd_endless : (fuel y : ℕ) → 0 < y → gcd fuel 0 y ≡ none
gcd_endless zero y h = gcd_out 0 y
gcd_endless (suc fuel) y h =
    gcd_right fuel 0 y h ∙ ap (gcd fuel 0) (omega arith) ∙ gcd_endless fuel y h
