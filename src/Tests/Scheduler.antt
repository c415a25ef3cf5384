-- ===== src/Tests/Scheduler.antt =====
-- The theorems on the scheduler at concrete states.
use assembly_os.Prelude.{ℕ, ◌≤◌, ◌<◌, ◌≡◌, ◌≢◌, refl, arith, true, false, ◌⊎◌, minus_one}
use assembly_os.Process.State.{process}
use assembly_os.Process.Table.{active_process}
use assembly_os.Scheduler.{scheduler, next_pid, update_waiting, is_eligible, toggled_type}
use assembly_os.Scheduler.Choice.{next_pid_lem}
use assembly_os.Scheduler.Longest.{IsCounting, waits}
use assembly_os.Scheduler.Aging.{aged, update_waiting_lem}
use assembly_os.Scheduler.Slices.{CanAge, IsSwitched, scheduler_switches}
use assembly_os.Tests.World.{world, world-IsValid, context}

counting : IsCounting (world 0)
counting q low high = ground arith

can_age : CanAge (world 0)
can_age q low high = ground arith

live_second : active_process (world 0) 2 ≡ true
unfolding active_process
live_second = refl

scheduler_switches_example :
    (pid : ℕ) × (pid ≢ 1)
    × (1 ≤ pid)
    × (pid ≤ 30)
    × (active_process (world 0) pid ≡ true)
    × IsSwitched (world 0) (scheduler (world 0)) pid
scheduler_switches_example =
    scheduler_switches (world 0) 2 (world-IsValid 0 (omega arith)) can_age refl (omega arith)
      (omega arith) (omega arith) live_second refl

next_pid_lem_example :
    ((next_pid (world 0) ≡ minus_one)
      × ((q : ℕ) → 1 ≤ q → q ≤ 30 → active_process (world 0) q ≡ false))
    ⊎ ((1 ≤ next_pid (world 0))
        × (next_pid (world 0) ≤ 30)
        × (active_process (world 0) (next_pid (world 0)) ≡ true)
        × (((process (world 0) (next_pid (world 0))).priority.process_type ≡ toggled_type 1)
            ⊎ ((q : ℕ) → 1 ≤ q → q ≤ 30 → is_eligible (world 0) (toggled_type 1) q ≡ false))
        × ((q : ℕ)
            → 1 ≤ q
            → q ≤ 30
            → active_process (world 0) q ≡ true
            → (process (world 0) q).priority.process_type
              ≡ (process (world 0) (next_pid (world 0))).priority.process_type
            → waits (world 0) q ≤ waits (world 0) (next_pid (world 0))))
next_pid_lem_example = next_pid_lem (world 0) (world-IsValid 0 (omega arith)) counting

update_waiting_lem_example :
    ((q : ℕ) → 1 ≤ q → q ≤ 30 → process (update_waiting (world 0)) q ≡ aged (world 0) q)
    × ((q : ℕ) → (q < 1) ⊎ (30 < q) → process (update_waiting (world 0)) q ≡ process (world 0) q)
    × ((update_waiting (world 0)).current ≡ 1)
    × ((update_waiting (world 0)).frame ≡ context 4100)
update_waiting_lem_example = update_waiting_lem (world 0)
