-- ===== src/User/Philosophers.antt =====
-- question/user/bin/dinning_philosophers.c: the arbitrator and a philosopher, one access to the
-- shared memory at a time. A philosopher may be interrupted between any two steps.
pub mod Moves
pub mod Invariant
pub mod Safety
use assembly_os.Prelude.{
  ℕ, zero, suc, ◌+◌, ◌%◌, ◌<◌, ◌≡◌, ◌≢◌, Bool, true, false, ◌&&◌, not, Option, none, some, List, [],
  ◌∷◌, ◌==◌, if◌then◌else◌, length, get_or, set, replicate, minus_one,
}
use assembly_os.User.Programs.{exit_failure}

abbrev pub philosophers : ℕ
philosophers = 16

-- `arbitrator_t`, and whether it is locked.
pub record Arbitrator : Type 0 where
  pub forks : List ℕ
  pub ids : List ℕ
  pub state : ℕ
  pub locked : Bool

unfoldable pub ids_from : ℕ → ℕ → List ℕ
ids_from zero i = []
ids_from (suc n) i = i ∷ ids_from n (suc i)

-- The arbitrator as `main_dp` shares it.
unfoldable pub arbitrator : Arbitrator
unfolding ids_from
arbitrator = record {
  forks = replicate philosophers 1;
  ids = ids_from philosophers 0;
  state = 0;
  locked = false;
}

-- The loop of `get_id` from the index `i` on: the id, what it leaves of the ids, and whether the id
-- was the last.
unfoldable pub take_id : ℕ → List ℕ → Option (ℕ × List ℕ × Bool)
take_id i [] = none
take_id i (id ∷ ids) =
    let rest = take_id (suc i) ids in
    if id == minus_one
    then elim rest [ none ↦ none | some (found, left, last) ↦ some (found, id ∷ left, last) ]
    else some (id, minus_one ∷ ids, i == 15)

abbrev taken_id : Arbitrator → Option (ℕ × List ℕ × Bool) → Arbitrator × ℕ
taken_id a none = (a, minus_one)
taken_id a (some (id, ids, last)) =
    (record a { ids = ids; state = if last then 1 else a.state }, id)

-- `get_id` between the return of `lockm` and the call of `unlockm`.
unfoldable pub get_id : Arbitrator → Arbitrator × ℕ
get_id a = taken_id a (take_id 0 a.ids)

abbrev pub right_of : ℕ → ℕ
right_of id = (id + 1) % philosophers

-- Takes the fork at the index, if it is there.
abbrev take_fork : ℕ → List ℕ → List ℕ × ℕ
take_fork f forks = (if get_or forks f 0 == 0 then forks else set forks f 0, get_or forks f 0)

unfoldable pub get_left_fork : ℕ → List ℕ → List ℕ × ℕ
get_left_fork id forks = take_fork id forks

unfoldable pub get_right_fork : ℕ → List ℕ → List ℕ × ℕ
get_right_fork id forks = take_fork (right_of id) forks

-- The two writes of `put_forks_back`.
unfoldable pub put_left_back : ℕ → ℕ → List ℕ → List ℕ
put_left_back id left forks = if left == 0 then forks else set forks id 1

unfoldable pub put_right_back : ℕ → ℕ → List ℕ → List ℕ
put_right_back id right forks = if right == 0 then forks else set forks (right_of id) 1

-- Where `philosopher` stands in its loop, with `j`, `eat_count`, `left_fork` and `right_fork`.
pub data Pc : Type 0 where
  thinking entered : (j eat_count : ℕ) → Pc
  got_left : (j eat_count left : ℕ) → Pc
  got_right : (j eat_count left right : ℕ) → Pc
  fed : (j eat_count left right : ℕ) → Pc
  put_left : (j eat_count right : ℕ) → Pc
  leaving : (j eat_count : ℕ) → Pc
  exited : (status : ℕ) → Pc
  gave_up : (j eat_count : ℕ) → Pc

-- `if (left_fork && right_fork) eat_count++;`
abbrev pub eat : ℕ → ℕ → ℕ → ℕ
eat left right eat_count = if not (left == 0) && not (right == 0) then eat_count + 1 else eat_count

-- The status that the philosopher exits with, at `exit(eat_count)` or where `lockm` has failed.
abbrev pub exit_status : Pc → Option ℕ
exit_status (exited status) = some status
exit_status (gave_up j eat_count) = some exit_failure
exit_status _ = none

-- A step of the philosopher with the number `id`: the forks, the lock and its place in the loop.
-- `shared` is whether the philosopher reaches the arbitrator through its parent, which `lockm` fails
-- without; `wait` is an attempt that is refused, and the yield after it.
pub data Move (id : ℕ) (shared : Bool) (forks : List ℕ)
    : Bool → Pc → List ℕ → Bool → Pc → Type 0 where
  locks :
      {j e : ℕ}
      → j < 10
      → shared ≡ true
      → Move id shared forks false (thinking j e) forks true (entered j e)
  wait :
      {j e : ℕ}
      → j < 10
      → shared ≡ true
      → Move id shared forks true (thinking j e) forks true (thinking j e)
  take_left :
      {j e : ℕ} {l : Bool}
      → Move id shared forks l
          (entered j e)
          (get_left_fork id forks).0
          l
          (got_left j e (get_left_fork id forks).1)
  take_right :
      {j e left : ℕ} {l : Bool}
      → Move id shared forks l
          (got_left j e left)
          (get_right_fork id forks).0
          l
          (got_right j e left (get_right_fork id forks).1)
  dine :
      {j e left right : ℕ} {l : Bool}
      → Move id shared forks l
          (got_right j e left right)
          forks
          l
          (fed j (eat left right e) left right)
  return_left :
      {j e left right : ℕ} {l : Bool}
      → Move id shared forks l
          (fed j e left right)
          (put_left_back id left forks)
          l
          (put_left j e right)
  return_right :
      {j e right : ℕ} {l : Bool}
      → Move id shared forks l (put_left j e right) (put_right_back id right forks) l (leaving j e)
  unlocks :
      {j e : ℕ} {l : Bool} → Move id shared forks l (leaving j e) forks false (thinking (suc j) e)
  lock_fails :
      {j e : ℕ} {l : Bool}
      → j < 10
      → shared ≡ false
      → Move id shared forks l (thinking j e) forks l (gave_up j e)
  exit : {j e : ℕ} {l : Bool} → j ≡ 10 → Move id shared forks l (thinking j e) forks l (exited e)

-- `shared` is whether the parent still shares the arbitrator.
pub record Diners : Type 0 where
  pub shared : Bool
  pub forks : List ℕ
  pub locked : Bool
  pub pc : ℕ → Pc

abbrev pub moved : (ℕ → Pc) → ℕ → Pc → ℕ → Pc
moved pc i p j = if j == i then p else pc j

-- One of the philosophers moves, and the scheduler chooses which; or the parent stops to share the
-- arbitrator, as it does when it is killed.
pub data Step (s : Diners) : Diners → Type 0 where
  pick :
      (i : ℕ) {forks : List ℕ} {l : Bool} {p : Pc}
      → i < philosophers
      → Move i s.shared s.forks s.locked (s.pc i) forks l p
      → Step s (record { shared = s.shared; forks = forks; locked = l; pc = moved s.pc i p })
  lose : Step s (record s { shared = false })

-- All have their ids and start to think.
abbrev pub start : Diners
start = record {
  shared = true;
  forks = replicate philosophers 1;
  locked = false;
  pc = λ i. thinking 0 0;
}

pub data Reach : Diners → Type 0 where
  begin : Reach start
  next : {s t : Diners} → Reach s → Step s t → Reach t
