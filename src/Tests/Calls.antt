-- ===== src/Tests/Calls.antt =====
-- The theorems on the system calls at concrete states.
use assembly_os.Prelude.{
  ℕ, ◌≤◌, ◌<◌, ◌≡◌, ◌≢◌, refl, arith, true, false, ◌⊎◌, some, none, minus_one, index_where,
}
use assembly_os.Process.State.{Kernel}
use assembly_os.Process.Table.{active_process, free_pid}
use assembly_os.Process.Wait.{get_waiting, entry, waiter, free_waiter, free_waiting}
use assembly_os.Process.Wait.Registration.{IsWaiting}
use assembly_os.Calls.{
  sys_yield, sys_fork, sys_exit, sys_kill, return_value, exit_failure, sig_term,
}
use assembly_os.Scheduler.{scheduler}
use assembly_os.Scheduler.Fresh.{IsFresh}
use assembly_os.Calls.Fresh.{running-IsFresh}
use assembly_os.Calls.Fork.{IsForked, sys_fork_lem}
use assembly_os.Calls.Exit.{IsLeft, sys_exit_lem}
use assembly_os.Calls.Kill.{kill_self_runs_on, kill_tells_own_waiters}
use assembly_os.Tests.World.{world, world-IsValid, world-IsAwaited, second_waits}

live_first : (left : ℕ) → active_process (world left) 1 ≡ true
unfolding active_process
live_first left = refl

live_second : active_process (world 0) 2 ≡ true
unfolding active_process
live_second = refl

dead_third : active_process (world 0) 3 ≡ false
unfolding active_process
dead_third = refl

room_for_waiter : free_waiter (world 0) 2 ≡ some 0
unfolding free_waiter index_where
room_for_waiter = refl

room_for_entry : free_waiting (world 0) 1 ≡ some 0
unfolding free_waiting index_where
room_for_entry = refl

no_entry : get_waiting (world 0) 1 2 ≡ none
unfolding get_waiting index_where
no_entry = refl

first_awaited : IsWaiting (world 0) 2 1 0
first_awaited = record { registered = (0, omega arith, refl); recorded = second_waits 0 }

sys_exit_lem_example : (k' : Kernel) × (sys_exit (world 0) 7 ≡ some k') × IsLeft (world 0) k' 7
sys_exit_lem_example = sys_exit_lem (world 0) 7 (world-IsValid 0 (omega arith)) (world-IsAwaited 0)

sys_fork_lem_example :
    ((sys_fork (world 0) ≡ return_value (world 0) minus_one)
      × ((q : ℕ) → 1 ≤ q → q ≤ 30 → active_process (world 0) q ≡ true))
    ⊎ ((1 ≤ free_pid (world 0))
        × (free_pid (world 0) ≤ 30)
        × (active_process (world 0) (free_pid (world 0)) ≡ false)
        × ((q : ℕ) → 1 ≤ q → q < free_pid (world 0) → active_process (world 0) q ≡ true)
        × IsForked (world 0) (sys_fork (world 0)) (free_pid (world 0)))
sys_fork_lem_example = sys_fork_lem (world 0) (world-IsValid 0 (omega arith)) (live_first 0)

running-IsFresh_example :
    IsFresh (scheduler (world 0)) × IsFresh (sys_fork (world 0)) × IsFresh (sys_yield (world 0))
running-IsFresh_example = running-IsFresh (world 0) (world-IsValid 0 (omega arith)) refl

kill_self_runs_on_example :
    (k' : Kernel) × (sys_kill (world 3) 1 sig_term ≡ some (k', 0))
    × (k'.current ≡ 1)
    × (k'.frame.pc ≡ 0)
    × (active_process k' 1 ≡ true)
kill_self_runs_on_example =
    kill_self_runs_on (world 3) (world-IsValid 3 (omega arith)) (world-IsAwaited 3) (live_first 3)
      (omega arith)

kill_tells_own_waiters_example :
    (k' : Kernel) × (sys_kill (world 0) 2 sig_term ≡ some (k', 0))
    × (active_process k' 2 ≡ false)
    × (k'.current ≡ 1)
    × ((j m : ℕ)
        → j < 5
        → waiter (world 0) 1 j ≢ 0
        → get_waiting (world 0) (waiter (world 0) 1 j) 1 ≡ some m
        → ((entry k' (waiter (world 0) 1 j) m).result ≡ exit_failure) × (waiter k' 1 j ≡ 0))
    × ((j : ℕ) → waiter k' 2 j ≡ waiter (world 0) 2 j)
kill_tells_own_waiters_example =
    kill_tells_own_waiters (world 0) 2 (world-IsValid 0 (omega arith)) (world-IsAwaited 0)
      live_second (omega arith)
