-- ===== src/User/Philosophers/Moves.antt =====
-- question/user/bin/dinning_philosophers.c: what every step of a philosopher preserves.
use assembly_os.Prelude.{
  ℕ, suc, ◌<◌, ◌≡◌, ◌≢◌, refl, ◌∙◌, ap, subst, Bool, true, false, List, arith, length-set,
}
use assembly_os.User.Philosophers.{
  philosophers, right_of, get_left_fork, get_right_fork, put_left_back, put_right_back, Pc,
  thinking, entered, got_left, got_right, fed, put_left, leaving, exited, gave_up, eat, Move,
  lock_fails, lose, locks, wait, take_left, take_right, dine, return_left, return_right, unlocks,
  exit, Diners, Step, pick, moved,
}
use assembly_os.User.Philosophers.Invariant.{
  critical, expected, Counted, fork, Invariant, right_of-ne, Stays, fork-set, stays, enters, leaves,
}

-- The old place, where it is known by an equation.
module _ (forks : List ℕ) (l : Bool) (pc : ℕ → Pc) (i : ℕ) (inv : Invariant forks l pc)
    (small : i < philosophers) where
  known-Counted : (p : Pc) → pc i ≡ p → Counted p
  known-Counted p e = subst Counted e (inv.counted i)

  known_held :
      (p : Pc)
      → pc i ≡ p
      → critical p ≡ true
      → (f : ℕ) → f < philosophers
      → fork forks f ≡ expected i p f
  known_held p e c f h = inv.held i (ap critical e ∙ c) f h ∙ ap (λ q. expected i q f) e

  -- A step inside the critical section, from the place `p`.
  inside :
      (p p' : Pc) (forks' : List ℕ)
      → pc i ≡ p
      → critical p ≡ true
      → Stays i forks' p'
      → Invariant forks' l (moved pc i p')
  inside p p' forks' e c st = stays forks forks' l pc i p' inv (ap critical e ∙ c) st

  move_take_left :
      (j e : ℕ)
      → pc i ≡ entered j e
      → Invariant (get_left_fork i forks).0 l (moved pc i (got_left j e (get_left_fork i forks).1))
  unfolding get_left_fork
  move_take_left j e at =
      let there : fork forks i ≡ 1 = known_held (entered j e) at refl i small in
      inside (entered j e) _ _ at refl (
        rw there (record {
          size = length-set forks i 0 ∙ inv.size;
          inside = refl;
          counted = (known-Counted (entered j e) at, refl);
          held = λ f h.
              fork-set forks i f 0 (omega (arith, inv.size, small))
              ∙ rw (known_held (entered j e) at refl f h) (ground arith);
        }))

  move_take_right :
      (j e left : ℕ)
      → pc i ≡ got_left j e left
      → Invariant
          (get_right_fork i forks).0
          l
          (moved pc i (got_right j e left (get_right_fork i forks).1))
  unfolding get_right_fork
  move_take_right j e left at =
      let apart : right_of i ≢ i = right_of-ne i small in
      let there : fork forks (right_of i) ≡ 1 =
        known_held (got_left j e left) at refl (right_of i) (omega arith) ∙ ground arith in
      inside (got_left j e left) _ _ at refl (
        rw there (record {
          size = length-set forks (right_of i) 0 ∙ inv.size;
          inside = refl;
          counted = (
            (known-Counted (got_left j e left) at).0,
            (known-Counted (got_left j e left) at).1,
            refl,
          );
          held = λ f h.
              fork-set forks (right_of i) f 0 (omega (arith, inv.size))
              ∙ rw (known_held (got_left j e left) at refl f h) (ground arith);
        }))

  move_dine :
      (j e left right : ℕ)
      → pc i ≡ got_right j e left right
      → Invariant forks l (moved pc i (fed j (eat left right e) left right))
  move_dine j e left right at =
      let (count, has_left, has_right) = known-Counted (got_right j e left right) at in
      inside (got_right j e left right) _ forks at refl (record {
        size = inv.size;
        inside = refl;
        counted = (ground arith, has_left, has_right);
        held = known_held (got_right j e left right) at refl;
      })

  move_return_left :
      (j e left right : ℕ)
      → pc i ≡ fed j e left right
      → Invariant (put_left_back i left forks) l (moved pc i (put_left j e right))
  unfolding put_left_back
  move_return_left j e left right at =
      let (count, has_left, has_right) = known-Counted (fed j e left right) at in
      let apart : right_of i ≢ i = right_of-ne i small in
      inside (fed j e left right) _ _ at refl (
        rw has_left (record {
          size = length-set forks i 1 ∙ inv.size;
          inside = refl;
          counted = (count, has_right);
          held = λ f h.
              fork-set forks i f 1 (omega (arith, inv.size, small))
              ∙ rw (known_held (fed j e left right) at refl f h) (ground arith);
        }))

  move_return_right :
      (j e right : ℕ)
      → pc i ≡ put_left j e right
      → Invariant (put_right_back i right forks) l (moved pc i (leaving j e))
  unfolding put_right_back
  move_return_right j e right at =
      let (count, has_right) = known-Counted (put_left j e right) at in
      inside (put_left j e right) _ _ at refl (
        rw has_right (record {
          size = length-set forks (right_of i) 1 ∙ inv.size;
          inside = refl;
          counted = count;
          held = λ f h.
              fork-set forks (right_of i) f 1 (omega (arith, inv.size))
              ∙ rw (known_held (put_left j e right) at refl f h) (ground arith);
        }))

  move_unlock :
      (j e : ℕ) → pc i ≡ leaving j e → Invariant forks false (moved pc i (thinking (suc j) e))
  move_unlock j e at =
      leaves forks l false pc i (thinking (suc j) e) inv refl (known-Counted (leaving j e) at)
        (λ k ne c. absurd (ne (inv.alone k i c (ap critical at))))
        (λ free. known_held (leaving j e) at refl)

  move_outside :
      (p p' : Pc)
      → pc i ≡ p
      → critical p ≡ false
      → critical p' ≡ false
      → Counted p'
      → Invariant forks l (moved pc i p')
  move_outside p p' at out out' counted =
      leaves forks l l pc i p' inv out' counted (λ k ne. inv.shut k) (λ free. inv.on_table free)

Move-Invariant :
    (pc : ℕ → Pc) (i : ℕ) {shared : Bool} {forks : List ℕ} {l : Bool} {p : Pc} {forks' : List ℕ}
    {l' : Bool} {p' : Pc}
    → Move i shared forks l p forks' l' p'
    → i < philosophers
    → pc i ≡ p
    → Invariant forks l pc
    → Invariant forks' l' (moved pc i p')
Move-Invariant pc i {forks} (locks {j} {e} h with_it) small at inv =
    enters forks pc i j e inv (known-Counted forks false pc i inv small (thinking j e) at)
Move-Invariant pc i {forks} {l} (wait {j} {e} h with_it) small at inv =
    move_outside forks true pc i inv small (thinking j e) (thinking j e) at refl refl
      (known-Counted forks true pc i inv small (thinking j e) at)
Move-Invariant pc i {forks} {l} (take_left {j} {e}) small at inv =
    move_take_left forks l pc i inv small j e at
Move-Invariant pc i {forks} {l} (take_right {j} {e} {left}) small at inv =
    move_take_right forks l pc i inv small j e left at
Move-Invariant pc i {forks} {l} (dine {j} {e} {left} {right}) small at inv =
    move_dine forks l pc i inv small j e left right at
Move-Invariant pc i {forks} {l} (return_left {j} {e} {left} {right}) small at inv =
    move_return_left forks l pc i inv small j e left right at
Move-Invariant pc i {forks} {l} (return_right {j} {e} {right}) small at inv =
    move_return_right forks l pc i inv small j e right at
Move-Invariant pc i {forks} {l} (unlocks {j} {e}) small at inv =
    move_unlock forks l pc i inv small j e at
Move-Invariant pc i {forks} {l} (lock_fails {j} {e} h lost) small at inv =
    move_outside forks l pc i inv small (thinking j e) (gave_up j e) at refl refl
      (known-Counted forks l pc i inv small (thinking j e) at)
Move-Invariant pc i {forks} {l} (exit {j} {e} ten) small at inv =
    move_outside forks l pc i inv small (thinking j e) (exited e) at refl refl
      (known-Counted forks l pc i inv small (thinking j e) at ∙ ten)

pub Step-Invariant :
    {s t : Diners} → Step s t → Invariant s.forks s.locked s.pc → Invariant t.forks t.locked t.pc
Step-Invariant {s} (pick i small mv) inv = Move-Invariant s.pc i mv small refl inv
Step-Invariant lose inv = inv
