-- ===== src/Tests/Process.antt =====
-- The theorems on the process table at concrete states.
use assembly_os.Prelude.{◌≡◌, refl, arith, true, some, none, index_where, ◌==◌}
use assembly_os.Process.Table.{active_process}
use assembly_os.Process.Share.{is_shared, lock}
use assembly_os.Process.Share.Laws.{lock_excludes}
use assembly_os.Process.Wait.{get_waiting, free_waiter, free_waiting}
use assembly_os.Process.Files.{remove_process_fd, proc_fd_open, fds}
use assembly_os.Process.Files.Laws.{removed_still_open}
use assembly_os.Tests.World.{world}

locks : (lock (world 0) 1 64).1 ≡ 1
unfolding lock is_shared
locks = refl

child_reaches : is_shared (world 0) 2 64 ≡ is_shared (world 0) 1 64
unfolding is_shared
child_reaches = refl

lock_excludes_example : lock (lock (world 0) 1 64).0 2 64 ≡ ((lock (world 0) 1 64).0, 0)
lock_excludes_example = lock_excludes (world 0) 1 2 64 locks child_reaches

live_second : active_process (world 0) 2 ≡ true
unfolding active_process
live_second = refl

room_for_waiter : free_waiter (world 0) 2 ≡ some 0
unfolding free_waiter index_where
room_for_waiter = refl

room_for_entry : free_waiting (world 0) 1 ≡ some 0
unfolding free_waiting index_where
room_for_entry = refl

no_entry : get_waiting (world 0) 1 2 ≡ none
unfolding get_waiting index_where
no_entry = refl

first_fd : index_where (λ x. x == 7) (fds (world 0) 1).count (fds (world 0) 1).opened ≡ some 0
unfolding index_where
first_fd = refl

removed_still_open_example :
    ((remove_process_fd (world 0) 1 7).1 ≡ 0)
    × (proc_fd_open (remove_process_fd (world 0) 1 7).0 1 7 ≡ 1)
removed_still_open_example = removed_still_open (world 0) 1 7 0 first_fd (omega arith)
