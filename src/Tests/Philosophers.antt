-- ===== src/Tests/Philosophers.antt =====
-- The theorems on the philosophers at the end of a run of one of them.
use assembly_os.Prelude.{
  ℕ, zero, suc, ◌++◌, minus_one, ◌<◌, ◌≡◌, refl, arith, Bool, false, ◌⊎◌, get_or, List, [], ◌∷◌,
}
use assembly_os.User.Programs.{exit_failure}
use assembly_os.User.Philosophers.{
  Arbitrator, Move, Pc, Diners, start, Reach, begin, next, pick, locks, take_left, take_right, dine,
  return_left, return_right, unlocks, exit, get_left_fork, get_right_fork, put_left_back,
  put_right_back, get_id, arbitrator, ids_from, take_id,
}
use assembly_os.User.Philosophers.Safety.{forks_exclusive, exited_ten}

abbrev Run : Type 0
Run = (s : Diners) × Reach s

abbrev go :
    (r : Run) (i : ℕ) {forks : List ℕ} {l : Bool} {p : Pc}
    → i < 16
    → Move i (r.0.shared) (r.0.forks) (r.0.locked) (r.0.pc i) forks l p
    → Run
go r i small mv = (_, next (r.1) (pick i small mv))

-- The third philosopher has got its left fork.
abbrev third : Run
third = go (go (start, begin) 3 (omega arith) (locks (omega arith) refl)) 3 (omega arith) take_left

forks_exclusive_example : (◌≡◌ {A = ℕ} 3 3) × (get_or (third.0.forks) 3 0 ≡ 0)
forks_exclusive_example = forks_exclusive (third.1) 3 3 3 3 (omega arith) refl refl

-- The first philosopher runs alone, round by round.
abbrev round0 : Run
unfolding get_left_fork get_right_fork put_left_back put_right_back
round0 =
    go
      (go
        (go
          (go
            (go
              (go (go (start, begin) 0 (omega arith) (locks (omega arith) refl)) 0 (omega arith)
                take_left)
              0 (omega arith) take_right)
            0 (omega arith) dine)
          0 (omega arith) return_left)
        0 (omega arith) return_right)
      0 (omega arith) unlocks

abbrev round1 : Run
unfolding get_left_fork get_right_fork put_left_back put_right_back
round1 =
    go
      (go
        (go
          (go
            (go
              (go (go round0 0 (omega arith) (locks (omega arith) refl)) 0 (omega arith) take_left)
              0 (omega arith) take_right)
            0 (omega arith) dine)
          0 (omega arith) return_left)
        0 (omega arith) return_right)
      0 (omega arith) unlocks

abbrev round2 : Run
unfolding get_left_fork get_right_fork put_left_back put_right_back
round2 =
    go
      (go
        (go
          (go
            (go
              (go (go round1 0 (omega arith) (locks (omega arith) refl)) 0 (omega arith) take_left)
              0 (omega arith) take_right)
            0 (omega arith) dine)
          0 (omega arith) return_left)
        0 (omega arith) return_right)
      0 (omega arith) unlocks

abbrev round3 : Run
unfolding get_left_fork get_right_fork put_left_back put_right_back
round3 =
    go
      (go
        (go
          (go
            (go
              (go (go round2 0 (omega arith) (locks (omega arith) refl)) 0 (omega arith) take_left)
              0 (omega arith) take_right)
            0 (omega arith) dine)
          0 (omega arith) return_left)
        0 (omega arith) return_right)
      0 (omega arith) unlocks

abbrev round4 : Run
unfolding get_left_fork get_right_fork put_left_back put_right_back
round4 =
    go
      (go
        (go
          (go
            (go
              (go (go round3 0 (omega arith) (locks (omega arith) refl)) 0 (omega arith) take_left)
              0 (omega arith) take_right)
            0 (omega arith) dine)
          0 (omega arith) return_left)
        0 (omega arith) return_right)
      0 (omega arith) unlocks

abbrev round5 : Run
unfolding get_left_fork get_right_fork put_left_back put_right_back
round5 =
    go
      (go
        (go
          (go
            (go
              (go (go round4 0 (omega arith) (locks (omega arith) refl)) 0 (omega arith) take_left)
              0 (omega arith) take_right)
            0 (omega arith) dine)
          0 (omega arith) return_left)
        0 (omega arith) return_right)
      0 (omega arith) unlocks

abbrev round6 : Run
unfolding get_left_fork get_right_fork put_left_back put_right_back
round6 =
    go
      (go
        (go
          (go
            (go
              (go (go round5 0 (omega arith) (locks (omega arith) refl)) 0 (omega arith) take_left)
              0 (omega arith) take_right)
            0 (omega arith) dine)
          0 (omega arith) return_left)
        0 (omega arith) return_right)
      0 (omega arith) unlocks

abbrev round7 : Run
unfolding get_left_fork get_right_fork put_left_back put_right_back
round7 =
    go
      (go
        (go
          (go
            (go
              (go (go round6 0 (omega arith) (locks (omega arith) refl)) 0 (omega arith) take_left)
              0 (omega arith) take_right)
            0 (omega arith) dine)
          0 (omega arith) return_left)
        0 (omega arith) return_right)
      0 (omega arith) unlocks

abbrev round8 : Run
unfolding get_left_fork get_right_fork put_left_back put_right_back
round8 =
    go
      (go
        (go
          (go
            (go
              (go (go round7 0 (omega arith) (locks (omega arith) refl)) 0 (omega arith) take_left)
              0 (omega arith) take_right)
            0 (omega arith) dine)
          0 (omega arith) return_left)
        0 (omega arith) return_right)
      0 (omega arith) unlocks

abbrev round9 : Run
unfolding get_left_fork get_right_fork put_left_back put_right_back
round9 =
    go
      (go
        (go
          (go
            (go
              (go (go round8 0 (omega arith) (locks (omega arith) refl)) 0 (omega arith) take_left)
              0 (omega arith) take_right)
            0 (omega arith) dine)
          0 (omega arith) return_left)
        0 (omega arith) return_right)
      0 (omega arith) unlocks

abbrev last : Run
unfolding get_left_fork get_right_fork put_left_back put_right_back
last = go round9 0 (omega arith) (exit refl)

exited_ten_example : (◌≡◌ {A = ℕ} 10 10) ⊎ ((◌≡◌ {A = ℕ} 10 exit_failure) × (last.0.shared ≡ false))
unfolding get_left_fork get_right_fork put_left_back put_right_back
exited_ten_example = exited_ten (last.1) 0 10 refl

-- The ids in their order, and none for a seventeenth caller.
asked : ℕ → Arbitrator → List ℕ
asked zero a = []
asked (suc n) a = (get_id a).1 ∷ asked n (get_id a).0

all_ids : asked 17 arbitrator ≡ ids_from 16 0 ++ minus_one ∷ []
unfolding asked get_id take_id arbitrator ids_from
all_ids = refl
