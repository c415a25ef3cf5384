-- ===== src/User/Philosophers/Safety.antt =====
-- question/user/bin/dinning_philosophers.c: what holds whatever the scheduler does.
use assembly_os.Prelude.{
  ℕ, zero, suc, ◌<◌, ◌≡◌, refl, ◌∙◌, ap, if◌then◌else◌, true, false, Bool, List, some, sym,
  same_value, ◌⊎◌, inl, inr, arith, get_or, replicate,
}
use assembly_os.User.Programs.{exit_failure}
use assembly_os.User.Philosophers.{
  philosophers, Pc, exited, gave_up, exit_status, Move, pick, lose, thinking, entered, got_left,
  got_right, fed, put_left, leaving, Diners, start, Reach, begin, next,
}
use assembly_os.User.Philosophers.Invariant.{critical, holds, Counted, Invariant, everywhere}
use assembly_os.User.Philosophers.Moves.{Step-Invariant}

all_there : (n f : ℕ) → f < n → get_or {A = ℕ} (replicate n 1) f 0 ≡ 1
all_there zero f h = absurd (omega arith)
all_there (suc n) zero h = refl
all_there (suc n) (suc f) h = all_there n f (omega arith)

start-Invariant : Invariant start.forks start.locked start.pc
start-Invariant = record {
  size = refl;
  counted = λ i. refl;
  alone = λ i j a b. cc;
  shut = λ i c. cc;
  on_table = λ free f h. all_there philosophers f h;
  held = λ i c f h. cc;
}

Reach-Invariant : {s : Diners} → Reach s → Invariant s.forks s.locked s.pc
Reach-Invariant begin = start-Invariant
Reach-Invariant (next r st) = Step-Invariant st (Reach-Invariant r)

holds-critical : (i : ℕ) (p : Pc) (f : ℕ) → holds i p f ≡ true → critical p ≡ true
holds-critical i (thinking _ _) f h = cc
holds-critical i (entered _ _) f h = refl
holds-critical i (got_left _ _ _) f h = refl
holds-critical i (got_right _ _ _ _) f h = refl
holds-critical i (fed _ _ _ _) f h = refl
holds-critical i (put_left _ _ _) f h = refl
holds-critical i (leaving _ _) f h = refl
holds-critical i (exited _) f h = cc
holds-critical i (gave_up _ _) f h = cc

-- However the scheduler interleaves the philosophers, one that holds a fork is the only one that
-- holds any, and the arbitrator has 0 in the place of that fork.
pub forks_exclusive :
    {s : Diners}
    → Reach s
    → (i j f g : ℕ) → f < philosophers
    → holds i (s.pc i) f ≡ true
    → holds j (s.pc j) g ≡ true
    → (i ≡ j) × (get_or s.forks f 0 ≡ 0)
forks_exclusive {s} r i j f g small h k = (
  inv.alone i j inside (holds-critical j (s.pc j) g k),
  inv.held i inside f small ∙ ap (λ b. if b then 0 else 1) h,
)
  where
    inv : Invariant s.forks s.locked s.pc
    inv = Reach-Invariant r

    inside : critical (s.pc i) ≡ true
    inside = holds-critical i (s.pc i) f h

-- A philosopher whose `lockm` has failed is one that the parent shares nothing with any more.
abbrev Lost : Bool → Pc → Type 0
Lost shared (gave_up j e) = shared ≡ false
Lost shared _ = Unit {0}

Move-Lost :
    {i : ℕ} {shared l l' : Bool} {forks forks' : List ℕ} {p p' : Pc}
    → Move i shared forks l p forks' l' p'
    → Lost shared p'
Move-Lost (Move.locks h w) = tt
Move-Lost (Move.wait h w) = tt
Move-Lost Move.take_left = tt
Move-Lost Move.take_right = tt
Move-Lost Move.dine = tt
Move-Lost Move.return_left = tt
Move-Lost Move.return_right = tt
Move-Lost Move.unlocks = tt
Move-Lost (Move.lock_fails h lost) = lost
Move-Lost (Move.exit ten) = tt

Lost-false : (p : Pc) → Lost false p
Lost-false (gave_up j e) = refl
Lost-false (thinking _ _) = tt
Lost-false (entered _ _) = tt
Lost-false (got_left _ _ _) = tt
Lost-false (got_right _ _ _ _) = tt
Lost-false (fed _ _ _ _) = tt
Lost-false (put_left _ _ _) = tt
Lost-false (leaving _ _) = tt
Lost-false (exited _) = tt

Reach-Lost : {s : Diners} → Reach s → (i : ℕ) → Lost s.shared (s.pc i)
Reach-Lost begin = λ i. tt
Reach-Lost (next {s} r (pick i {p = p} small mv)) =
    everywhere (λ j q. Lost s.shared q) s.pc i p (Move-Lost mv) (λ j ne. Reach-Lost r j)
Reach-Lost (next {s} r lose) = λ i. Lost-false (s.pc i)

exits :
    (p : Pc) (shared : Bool) (status : ℕ)
    → Counted p
    → Lost shared p
    → exit_status p ≡ some status
    → (status ≡ 10) ⊎ ((status ≡ exit_failure) × (shared ≡ false))
exits (exited _) shared status c h e = inl (sym (same_value refl e) ∙ c)
exits (gave_up _ _) shared status c h e = inr (sym (same_value refl e), h)
exits (thinking _ _) shared status c h e = absurd cc
exits (entered _ _) shared status c h e = absurd cc
exits (got_left _ _ _) shared status c h e = absurd cc
exits (got_right _ _ _ _) shared status c h e = absurd cc
exits (fed _ _ _ _) shared status c h e = absurd cc
exits (put_left _ _ _) shared status c h e = absurd cc
exits (leaving _ _) shared status c h e = absurd cc

-- However the scheduler interleaves the philosophers, the status that one exits with is 10, since it
-- has eaten in each of its ten rounds, or EXIT_FAILURE; the latter only if the parent does not share
-- the arbitrator any more, so that a call of `lockm` has failed.
pub exited_ten :
    {s : Diners}
    → Reach s
    → (i status : ℕ) → exit_status (s.pc i) ≡ some status
    → (status ≡ 10) ⊎ ((status ≡ exit_failure) × (s.shared ≡ false))
exited_ten {s} r i status e =
    exits (s.pc i) s.shared status ((Reach-Invariant r).counted i) (Reach-Lost r i) e
