-- ===== src/Tests/World.antt =====
-- A small system for the tests: process 1 runs, process 2 waits for it.
use assembly_os.Prelude.{
  ℕ, zero, suc, ◌≤◌, ◌≡◌, refl, arith, index_where, ◌==◌, if◌then◌else◌, ◌∷◌, replicate, some,
  minus_one,
}
use assembly_os.Process.State.{Ctx, Priority, Waiting, Pcb, Kernel}
use assembly_os.Process.Invariant.{PcbIsValid, IsValid}
use assembly_os.Process.Wait.{get_waiting, waiter}
use assembly_os.Process.Wait.Laws.{IsAwaited}

abbrev pub context : ℕ → Ctx
context pc = record { pc = pc; cpsr = 80; gpr = λ i. i; sp = 8192; lr = 0 }

abbrev pub a_priority : ℕ → ℕ → ℕ → Priority
a_priority type left waiting = record {
  priority = 0;
  io_burst = 0;
  cpu_burst = 0;
  arrival_time = 0;
  time_left = left;
  waiting_time = waiting;
  process_type = type;
}

abbrev pub a_waiting : ℕ → ℕ → Waiting
a_waiting pid result = record { pid = pid; result = result }

abbrev pub idle : ℕ → Pcb
idle pid = record {
  pid = pid;
  ppid = 0;
  ctx = context 0;
  priority = a_priority 0 0 0;
  shared = record { ptr = 0; locked = 0 };
  waiting = replicate 20 (a_waiting 0 0);
  waiters = replicate 5 0;
  fd_table = record { count = 0; opened = replicate 10 0 };
}

-- Process 1: interactive, awaited by process 2, with the descriptors 7 and 9 open.
abbrev pub first : ℕ → Pcb
first left = record (idle 1) {
  ctx = context 4096;
  priority = a_priority 1 left 0;
  shared = record { ptr = 64; locked = 0 };
  waiters = 2 ∷ replicate 4 0;
  fd_table = record { count = 2; opened = 7 ∷ 9 ∷ replicate 8 0 };
}

-- Process 2: a child of process 1 that waits for it.
abbrev pub second : Pcb
second = record (idle 2) {
  ppid = 1;
  ctx = context 8192;
  priority = a_priority 0 0 3;
  waiting = a_waiting 1 minus_one ∷ replicate 19 (a_waiting 0 0);
}

-- `left` is the rest of the slice of process 1.
abbrev pub world : ℕ → Kernel
world left = record {
  procs = λ q. if q == 1 then first left else (if q == 2 then second else idle q);
  current = 1;
  frame = context 4100;
  sps = λ i. i;
  bursts = 0;
  tos_p1 = 65536;
}

first-IsValid : (left : ℕ) → left ≤ 6 → PcbIsValid 1 (first left)
first-IsValid left h = record {
  named = refl;
  waiting_size = refl;
  waiters_size = refl;
  typed = omega arith;
  sliced = h;
  files_size = refl;
  files_count = omega arith;
}

second-IsValid : PcbIsValid 2 second
second-IsValid = record {
  named = refl;
  waiting_size = refl;
  waiters_size = refl;
  typed = omega arith;
  sliced = omega arith;
  files_size = refl;
  files_count = omega arith;
}

idle-IsValid : (q : ℕ) → PcbIsValid q (idle q)
idle-IsValid q = record {
  named = refl;
  waiting_size = refl;
  waiters_size = refl;
  typed = omega arith;
  sliced = omega arith;
  files_size = refl;
  files_count = omega arith;
}

pub world-IsValid : (left : ℕ) → left ≤ 6 → IsValid (world left)
world-IsValid left h = record {
  slots = λ q low high. ground (arith, first-IsValid left h, second-IsValid, idle-IsValid q);
  current_low = omega arith;
  current_high = omega arith;
}

pub second_waits : (left : ℕ) → get_waiting (world left) 2 1 ≡ some 0
unfolding get_waiting index_where
second_waits left = refl

no_other : (left j : ℕ) → waiter (world left) 1 (suc j) ≡ 0
no_other left zero = refl
no_other left (suc zero) = refl
no_other left (suc (suc zero)) = refl
no_other left (suc (suc (suc zero))) = refl
no_other left (suc (suc (suc (suc j)))) = refl

pub world-IsAwaited : (left : ℕ) → IsAwaited (world left) 1
world-IsAwaited left zero below busy = (0, second_waits left)
world-IsAwaited left (suc j) below busy = absurd (busy (no_other left j))
