-- ===== src/Tests/User.antt =====
-- The theorems on the user's side at concrete inputs.
use assembly_os.Prelude.{
  ℕ, zero, suc, ◌≤◌, ◌<◌, ◌≡◌, refl, true, false, some, List, [], arith, replicate, index_where,
  if◌then◌else◌, ◌==◌, codes, minus_one,
}
use assembly_os.Process.State.{Kernel, process, modify}
use assembly_os.Process.Wait.{get_waiting}
use assembly_os.Process.Wait.Registration.{IsWaiting}
use assembly_os.Process.Share.{is_shared, lock, set_locked}
use assembly_os.Calls.{sys_exit, sys_wait}
use assembly_os.Calls.Exit.{IsLeft, sys_exit_lem}
use assembly_os.User.Requests.{fork, fork_wait}
use assembly_os.User.Text.{atoi, ss}
use assembly_os.User.Text.Digits.{signed}
use assembly_os.User.Text.Laws.{atoi-ss}
use assembly_os.User.Numbers.{gcd, is_prime, weight}
use assembly_os.User.Numbers.Divisors.{IsGcd, gcd_lem}
use assembly_os.User.Numbers.Primes.{is_prime_number, is_prime_lem}
use assembly_os.User.Numbers.Fields.{ones}
use assembly_os.User.Numbers.Weight.{weight_lem}
use assembly_os.User.Waiting.{at_attempt, lockm, waitp}
use assembly_os.User.Waiting.Laws.{lockm-lock, waitp-exit, try_lock, try_wait}
use assembly_os.User.Commands.{load, spawned, console_round}
use assembly_os.User.Commands.{path_from_args, strcpy}
use assembly_os.User.Text.{c_string}
use assembly_os.User.Programs.{Answer, cat, with_path, on_buffer, checked, exit_success}
use assembly_os.User.Programs.Runs.{finish, without}
use assembly_os.User.Programs.Closing.{Tool, run_tool, finish-closed}
use assembly_os.User.Commands.Laws.{console_round-program}
use assembly_os.Fs.Directory.{same_name}
use assembly_os.Tests.World.{world, world-IsValid, world-IsAwaited, second_waits}

atoi-ss_example :
    (b' : List ℕ) × (text : List ℕ) × (ss (replicate 11 7) 4294967191 ≡ some (b', text))
    × (atoi text ≡ 4294967191)
unfolding signed
atoi-ss_example = atoi-ss true 105 (replicate 11 7) (omega arith) (omega arith)

gcd_lem_example : (g : ℕ) × (gcd 30 12 18 ≡ some g) × IsGcd 3 12 18 g
gcd_lem_example = gcd_lem 3 12 18 (omega arith) (omega arith)

is_prime_lem_example : is_prime 65521 ≡ some (if is_prime_number 65521 then 1 else 0)
is_prime_lem_example = is_prime_lem 65521 (omega arith)

weight_lem_example : weight 0xF00F00FF ≡ ones 32 0xF00F00FF
weight_lem_example = weight_lem 0xF00F00FF (omega arith)

-- Process 1 holds the lock, and gives it back while process 2 yields for the first time.
abbrev held : Kernel
held = (lock (world 0) 1 64).0

abbrev gives_back : ℕ → Kernel → Kernel
gives_back i k = world 0

reaches : (m : ℕ) → m ≤ 1 → is_shared (at_attempt (try_lock 2 64) gives_back m 0 held) 2 64 ≡ some 1
unfolding at_attempt lock is_shared
reaches zero h = refl
reaches (suc zero) h = refl
reaches (suc (suc m)) h = absurd (omega arith)

free_again : (process (at_attempt (try_lock 2 64) gives_back 1 0 held) 1).shared.locked ≡ 0
unfolding at_attempt lock is_shared
free_again = refl

lockm-lock_example :
    (m : ℕ) × (m ≤ 1)
    × ((process (at_attempt (try_lock 2 64) gives_back m 0 held) 1).shared.locked ≡ 0)
    × (lockm (try_lock 2 64) gives_back 2 held
        ≡ some (modify (at_attempt (try_lock 2 64) gives_back m 0 held) 1 (set_locked 1), 1))
lockm-lock_example = lockm-lock gives_back held 2 64 1 1 reaches free_again

-- Process 1 exits with 7 while process 2, which waits for it, yields.
exit_of_first : (k' : Kernel) × (sys_exit (world 0) 7 ≡ some k') × IsLeft (world 0) k' 7
exit_of_first = sys_exit_lem (world 0) 7 (world-IsValid 0 (omega arith)) (world-IsAwaited 0)

abbrev leaves : ℕ → Kernel → Kernel
leaves i k = exit_of_first.0

left_then : sys_exit (world 0) 7 ≡ some (at_attempt (try_wait 2 1) leaves 1 0 (world 0))
unfolding at_attempt
left_then = exit_of_first.1

told_to_wait :
    (m : ℕ) → m < 1 → (sys_wait (at_attempt (try_wait 2 1) leaves m 0 (world 0)) 2 1).1 ≡ minus_one
unfolding at_attempt sys_wait get_waiting index_where
told_to_wait zero h = refl
told_to_wait (suc m) h = absurd (omega arith)

first_is_awaited : IsWaiting (world 0) 2 1 0
first_is_awaited = record { registered = (0, omega arith, refl); recorded = second_waits 0 }

waitp-exit_example : (k' : Kernel) × (waitp (try_wait 2 1) leaves 2 (world 0) ≡ some (k', 7))
waitp-exit_example =
    waitp-exit leaves (world 0) (world 0) 2 0 7 1 (world-IsValid 0 (omega arith))
      (world-IsAwaited 0) first_is_awaited (omega arith) (omega arith) (omega arith) left_then
      told_to_wait

knows_cat : load (codes "cat") ≡ some 5
unfolding load index_where same_name
knows_cat = refl

console_round-program_example :
    (console_round (replicate 100 9) (codes "cat notes")
      ≡ some (
          spawned (record {
            call = fork;
            becomes =
                some (record { program = some 5; is_interactive = 1; arguments = codes "notes" });
            waits = true;
          })))
    × (console_round (replicate 100 9) (codes "fork cat notes")
        ≡ some (
            spawned (record {
              call = fork_wait;
              becomes =
                  some (record { program = some 5; is_interactive = 0; arguments = codes "notes" });
              waits = false;
            })))
console_round-program_example =
    console_round-program b'c' (codes "at") (codes "notes") (replicate 100 9) 5 (omega arith)
      (omega arith) refl (omega arith) (omega arith) knows_cat

-- `cat notes` in the root, with the descriptor 3 and the text "hi".
abbrev answers : ℕ → Answer
answers n = record {
  status = if n == 0 then 3 else 2;
  bytes = codes "hi";
  info = record { type = 1; size = 2; creation_time = 0; modification_time = 0 };
}

cat_succeeds :
    finish (run_tool Tool.cat (replicate 1024 0) (codes "/") (codes "notes")) answers 0 []
    ≡ some ([], exit_success)
unfolding cat with_path on_buffer checked finish path_from_args strcpy c_string without
cat_succeeds = refl

finish-closed_example : ◌≡◌ {A = List ℕ} [] []
finish-closed_example =
    finish-closed Tool.cat (replicate 1024 0) (codes "/") (codes "notes") answers [] cat_succeeds
