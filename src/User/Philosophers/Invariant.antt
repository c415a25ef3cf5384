-- ===== src/User/Philosophers/Invariant.antt =====
-- question/user/bin/dinning_philosophers.c: the invariant of the forks, the lock and the counters.
use assembly_os.Prelude.{
  ℕ, suc, ◌<◌, ◌≡◌, ◌≢◌, refl, ◌∙◌, ap, sym, subst, Bool, true, false, ◌&&◌, ◌||◌, List, ◌==◌,
  if◌then◌else◌, arith, length, get_or, set, get_or-set_self, get_or-set_ne, Bool-cases, inl, inr,
}
use assembly_os.User.Philosophers.{
  philosophers, right_of, Pc, thinking, entered, got_left, got_right, fed, put_left, leaving,
  exited, gave_up, moved,
}

-- Between the return of `lockm` and the call of `unlockm`.
abbrev pub critical : Pc → Bool
critical (thinking _ _) = false
critical (exited _) = false
critical (gave_up _ _) = false
critical _ = true

-- The forks in the hand of a philosopher that is there.
abbrev pub holds_left : Pc → Bool
holds_left (got_left _ _ _) = true
holds_left (got_right _ _ _ _) = true
holds_left (fed _ _ _ _) = true
holds_left _ = false

abbrev pub holds_right : Pc → Bool
holds_right (got_right _ _ _ _) = true
holds_right (fed _ _ _ _) = true
holds_right (put_left _ _ _) = true
holds_right _ = false

abbrev pub holds : ℕ → Pc → ℕ → Bool
holds i p f = (holds_left p && f == i) || (holds_right p && f == right_of i)

-- What the place of the fork holds while the philosopher `i` is in the critical section at `p`.
abbrev pub expected : ℕ → Pc → ℕ → ℕ
expected i p f = if holds i p f then 0 else 1

-- Both forks are got in each round, and each round but the current one is counted.
abbrev pub Counted : Pc → Type 0
Counted (thinking j e) = e ≡ j
Counted (entered j e) = e ≡ j
Counted (got_left j e left) = (e ≡ j) × (left ≡ 1)
Counted (got_right j e left right) = (e ≡ j) × (left ≡ 1) × (right ≡ 1)
Counted (fed j e left right) = (e ≡ suc j) × (left ≡ 1) × (right ≡ 1)
Counted (put_left j e right) = (e ≡ suc j) × (right ≡ 1)
Counted (leaving j e) = e ≡ suc j
Counted (exited status) = status ≡ 10
Counted (gave_up j e) = e ≡ j

abbrev pub fork : List ℕ → ℕ → ℕ
fork forks f = get_or forks f 0

pub record Invariant (forks : List ℕ) (locked : Bool) (pc : ℕ → Pc) : Type 0 where
  pub size : length forks ≡ philosophers
  pub counted : (i : ℕ) → Counted (pc i)
  pub alone : (i j : ℕ) → critical (pc i) ≡ true → critical (pc j) ≡ true → i ≡ j
  pub shut : (i : ℕ) → critical (pc i) ≡ true → locked ≡ true
  pub on_table : locked ≡ false → (f : ℕ) → f < philosophers → fork forks f ≡ 1
  pub held :
      (i : ℕ)
      → critical (pc i) ≡ true
      → (f : ℕ) → f < philosophers
      → fork forks f ≡ expected i (pc i) f

pub right_of-ne : (i : ℕ) → i < philosophers → right_of i ≢ i
right_of-ne i h e = omega arith

-- What the lemma on a step inside the critical section asks of the step.
pub record Stays (i : ℕ) (forks : List ℕ) (p : Pc) : Type 0 where
  pub size : length forks ≡ philosophers
  pub inside : critical p ≡ true
  pub counted : Counted p
  pub held : (f : ℕ) → f < philosophers → fork forks f ≡ expected i p f

-- A property of the new place of `i` and of the old places of the others holds everywhere.
pub everywhere :
    (P : ℕ → Pc → Type 0) (pc : ℕ → Pc) (i : ℕ) (p : Pc)
    → P i p
    → ((j : ℕ) → j ≢ i → P j (pc j))
    → (j : ℕ) → P j (moved pc i p j)
everywhere P pc i p here there j = elim (Bool-cases (j == i)) [
  | inl same ↦ let e : j ≡ i = ground arith in rw same (subst (λ k. P k p) (sym e) here)
  | inr other ↦ rw other (there j (λ e. absurd (ground arith)))
]

pub fork-set :
    (forks : List ℕ) (g f v : ℕ)
    → g < length forks
    → fork (set forks g v) f ≡ (if f == g then v else fork forks f)
fork-set forks g f v h = elim (Bool-cases (f == g)) [
  | inl same ↦
      let e : f ≡ g = ground arith in
      rw same (ap (fork (set forks g v)) e ∙ get_or-set_self forks g v 0 h)
  | inr other ↦ rw other (get_or-set_ne forks g f v 0 (λ e. absurd (ground arith)))
]

pub absurd_lock : {l : Bool} → l ≡ false → l ≡ true → ⊥
absurd_lock p q = cc

-- Inside the critical section the others stay out of it.
pub stays :
    (forks forks' : List ℕ) (l : Bool) (pc : ℕ → Pc) (i : ℕ) (p : Pc)
    → Invariant forks l pc
    → critical (pc i) ≡ true
    → Stays i forks' p
    → Invariant forks' l (moved pc i p)
stays forks forks' l pc i p inv old st = record {
  size = st.size;
  counted = everywhere (λ j q. Counted q) pc i p (st.counted) (λ j ne. inv.counted j);
  alone = λ j k a b. mine j a ∙ sym (mine k b);
  shut =
      everywhere (λ j q. critical q ≡ true → l ≡ true) pc i p (λ c. inv.shut i old)
        (λ j ne. inv.shut j);
  on_table = λ free f h. absurd (absurd_lock free (inv.shut i old));
  held =
      everywhere
        (λ j q. critical q ≡ true → (f : ℕ) → f < philosophers → fork forks' f ≡ expected j q f) pc
        i p (λ c. st.held) (λ j ne c. absurd (ne (inv.alone j i c old)));
}
  where
    mine : (j : ℕ) → critical (moved pc i p j) ≡ true → j ≡ i
    mine =
        everywhere (λ j q. critical q ≡ true → j ≡ i) pc i p (λ c. refl)
          (λ j ne c. inv.alone j i c old)

-- With the lock free, nobody is inside.
pub enters :
    (forks : List ℕ) (pc : ℕ → Pc) (i j e : ℕ)
    → Invariant forks false pc
    → e ≡ j
    → Invariant forks true (moved pc i (entered j e))
enters forks pc i j e inv counted = record {
  size = inv.size;
  counted = everywhere (λ k q. Counted q) pc i (entered j e) counted (λ k ne. inv.counted k);
  alone = λ k m a b. mine k a ∙ sym (mine m b);
  shut = λ k c. refl;
  on_table = λ free f h. absurd (absurd_lock free refl);
  held =
      everywhere
        (λ k q. critical q ≡ true → (f : ℕ) → f < philosophers → fork forks f ≡ expected k q f) pc i
        (entered j e) (λ c. inv.on_table refl) (λ k ne c. absurd (absurd_lock refl (inv.shut k c)));
}
  where
    mine : (k : ℕ) → critical (moved pc i (entered j e) k) ≡ true → k ≡ i
    mine =
        everywhere (λ k q. critical q ≡ true → k ≡ i) pc i (entered j e) (λ c. refl)
          (λ k ne c. absurd (absurd_lock refl (inv.shut k c)))

-- A philosopher that goes to a place outside and leaves nobody inside or the lock as it was.
pub leaves :
    (forks : List ℕ) (l l' : Bool) (pc : ℕ → Pc) (i : ℕ) (p : Pc)
    → Invariant forks l pc
    → critical p ≡ false
    → Counted p
    → ((j : ℕ) → j ≢ i → critical (pc j) ≡ true → l' ≡ true)
    → (l' ≡ false → (f : ℕ) → f < philosophers → fork forks f ≡ 1)
    → Invariant forks l' (moved pc i p)
leaves forks l l' pc i p inv outside counted shut on_table = record {
  size = inv.size;
  counted = everywhere (λ j q. Counted q) pc i p counted (λ j ne. inv.counted j);
  alone = λ j k a b. inv.alone j k (before j a) (before k b);
  shut =
      everywhere (λ j q. critical q ≡ true → l' ≡ true) pc i p (λ c. absurd (absurd_lock outside c))
        shut;
  on_table = on_table;
  held =
      everywhere
        (λ j q. critical q ≡ true → (f : ℕ) → f < philosophers → fork forks f ≡ expected j q f) pc i
        p (λ c. absurd (absurd_lock outside c)) (λ j ne. inv.held j);
}
  where
    before : (j : ℕ) → critical (moved pc i p j) ≡ true → critical (pc j) ≡ true
    before =
        everywhere (λ j q. critical q ≡ true → critical (pc j) ≡ true) pc i p
          (λ c. absurd (absurd_lock outside c)) (λ j ne c. c)
