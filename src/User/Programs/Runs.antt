-- ===== src/User/Programs/Runs.antt =====
-- question/user/bin: runs of a program against answers, and what is open at their end.
use assembly_os.Prelude.{
  ℕ, suc, ◌+◌, ◌≡◌, refl, Bool, true, false, Option, none, some, List, [], ◌∷◌, ◌++◌, ◌==◌,
  if◌then◌else◌, is_error, arith, replicate, ltb, length,
}
use assembly_os.User.Text.{c_string}
use assembly_os.User.Commands.{Parsed, path_from_args, parse_cmd, newline}
use assembly_os.User.Programs.{
  Question, opens, reads, writes, closes, lists, stats, removes, removes_dir, makes_dir, kills,
  shows, put, complain, change_dir, Answer, Program, exit, fault, ask, fails, checked, with_path,
  on_buffer, parsed, on_parsed, with_text, appended, exit_success, exit_failure,
}

-- A descriptor is taken off the list.
unfoldable pub without : ℕ → List ℕ → List ℕ
without fd [] = []
without fd (x ∷ xs) = let rest = without fd xs in if x == fd then rest else x ∷ rest

-- The descriptors of the program that are open after a question and its answer.
abbrev pub track : Question → Answer → List ℕ → List ℕ
track (opens path flags) a open_fds = if is_error a.status then open_fds else a.status ∷ open_fds
track (closes fd) a open_fds = if is_error a.status then open_fds else without fd open_fds
track (reads fd n) a open_fds = open_fds
track (writes fd text) a open_fds = open_fds
track (lists path) a open_fds = open_fds
track (stats path) a open_fds = open_fds
track (removes path) a open_fds = open_fds
track (removes_dir path) a open_fds = open_fds
track (makes_dir path) a open_fds = open_fds
track (kills pid signal) a open_fds = open_fds
track (shows pid) a open_fds = open_fds
track (put text) a open_fds = open_fds
track (complain text) a open_fds = open_fds
track (change_dir text) a open_fds = open_fds

-- What is open at the exit, and the status, when the answers are `answers n` and those that follow;
-- `none` is a fault.
unfoldable pub finish : Program → (ℕ → Answer) → ℕ → List ℕ → Option (List ℕ × ℕ)
finish (exit status) answers n open_fds = some (open_fds, status)
finish fault answers n open_fds = none
finish (ask q k) answers n open_fds =
    finish (k (answers n)) answers (suc n) (track q (answers n) open_fds)

-- At a successful exit nothing is open.
unfoldable pub Closes : List ℕ → Program → Type 0
Closes open_fds p =
    (answers : ℕ → Answer) (n : ℕ) (left : List ℕ)
    → finish p answers n open_fds ≡ some (left, exit_success)
    → left ≡ []

pub ==_refl : (n : ℕ) → (n == n) ≡ true
==_refl n = ground arith

pub exit-Closes : Closes [] (exit exit_success)
unfolding Closes finish
exit-Closes answers n left e = cc

pub failed-Closes : (open_fds : List ℕ) → Closes open_fds (exit exit_failure)
unfolding Closes finish
failed-Closes open_fds answers n left e = absurd (ground arith)

pub fault-Closes : (open_fds : List ℕ) → Closes open_fds fault
unfolding Closes finish
fault-Closes open_fds answers n left e = absurd (ground arith)

pub ask-Closes :
    (open_fds : List ℕ) (q : Question) (k : Answer → Program)
    → ((a : Answer) → Closes (track q a open_fds) (k a))
    → Closes open_fds (ask q k)
unfolding Closes finish
ask-Closes open_fds q k h answers n left e = h (answers n) answers (suc n) left e

pub fails-Closes : (open_fds text : List ℕ) → Closes open_fds (fails text)
fails-Closes open_fds text =
    ask-Closes open_fds (complain (text ++ newline ∷ [])) (λ a. exit exit_failure)
      (λ a. failed-Closes open_fds)

pub if-Closes :
    (open_fds : List ℕ) (b : Bool) (p q : Program)
    → (b ≡ true → Closes open_fds p)
    → (b ≡ false → Closes open_fds q)
    → Closes open_fds (if b then p else q)
if-Closes open_fds true p q h k = h refl
if-Closes open_fds false p q h k = k refl

pub on_buffer-Closes :
    (open_fds : List ℕ) (buffer : Option (List ℕ)) (k : List ℕ → Program)
    → ((path : List ℕ) → Closes open_fds (k path))
    → Closes open_fds (on_buffer buffer k)
unfolding on_buffer
on_buffer-Closes open_fds none k h = fault-Closes open_fds
on_buffer-Closes open_fds (some b) k h = h (c_string b)

pub with_path-Closes :
    (open_fds : List ℕ) (size : ℕ) (cwd args : List ℕ) (k : List ℕ → Program)
    → ((path : List ℕ) → Closes open_fds (k path))
    → Closes open_fds (with_path size cwd args k)
unfolding with_path
with_path-Closes open_fds size cwd args k h =
    on_buffer-Closes open_fds (path_from_args cwd args (replicate size 0)) k h

pub on_parsed-Closes :
    (open_fds usage : List ℕ) (p : Option Parsed) (k : Parsed → Program)
    → ((q : Parsed) → Closes open_fds (k q))
    → Closes open_fds (on_parsed usage p k)
unfolding on_parsed
on_parsed-Closes open_fds usage none k h = fault-Closes open_fds
on_parsed-Closes open_fds usage (some p) k h =
    if-Closes open_fds (is_error p.status) (fails usage) (k p) (λ e. fails-Closes open_fds usage)
      (λ e. h p)

pub parsed-Closes :
    (open_fds usage args : List ℕ) (k : Parsed → Program)
    → ((q : Parsed) → Closes open_fds (k q))
    → Closes open_fds (parsed usage args k)
unfolding parsed
parsed-Closes open_fds usage args k h =
    on_parsed-Closes open_fds usage (parse_cmd args (replicate 100 0) (replicate 1024 0)) k h

pub checked-Closes :
    (open_fds : List ℕ) (q : Question) (text : List ℕ) (k : Answer → Program)
    → ((a : Answer) → is_error a.status ≡ false → Closes (track q a open_fds) (k a))
    → Closes open_fds (checked q text k)
unfolding checked
checked-Closes open_fds q text k h =
    ask-Closes open_fds q (λ a. if is_error a.status then fails text else k a)
      λ a.
        if-Closes (track q a open_fds) (is_error a.status) (fails text) (k a)
          (λ e. fails-Closes (track q a open_fds) text) (h a)

pub with_text-Closes :
    (open_fds text : List ℕ) (k : List ℕ → Program)
    → ((t : List ℕ) → Closes open_fds (k t))
    → Closes open_fds (with_text text k)
unfolding with_text
with_text-Closes open_fds [] k h = ask-Closes open_fds (reads 0 1024) _ (λ a. h _)
with_text-Closes open_fds (c ∷ cs) k h = h (c ∷ cs)

pub opened-Closes :
    (path : List ℕ) (flags : ℕ) (text : List ℕ) (k : Answer → Program)
    → ((a : Answer) → Closes (a.status ∷ []) (k a))
    → Closes [] (checked (opens path flags) text k)
opened-Closes path flags text k h = checked-Closes [] (opens path flags) text k (λ a e. rw e (h a))

pub closed-Closes :
    (fd : ℕ) (text : List ℕ) (k : Answer → Program)
    → ((a : Answer) → Closes [] (k a))
    → Closes (fd ∷ []) (checked (closes fd) text k)
unfolding without
closed-Closes fd text k h =
    checked-Closes (fd ∷ []) (closes fd) text k (λ a e. rw (e, ==_refl fd) (h a))

pub appended-Closes :
    (open_fds old new : List ℕ) (k : List ℕ → Program)
    → ((t : List ℕ) → Closes open_fds (k t))
    → Closes open_fds (appended old new k)
unfolding appended
appended-Closes open_fds old new k h =
    if-Closes open_fds (ltb (length old + length new) 1024) (k (old ++ new)) fault
      (λ e. h (old ++ new)) (λ e. fault-Closes open_fds)
