-- ===== src/Lib.antt =====
-- Verification of the assembly-os kernel (question/kernel) and of its user side (question/user).
--
-- The kernel keeps a table of thirty processes and a file system on a block device. A reset, a
-- timer interrupt or a system call enters it with the interrupted context; it changes the table
-- and the context, and the context is what the processor goes on with.
--
-- Process models question/kernel/processes.c and .h: the table and the current process (Table),
-- shared pointers and locks (Share), who waits for whom (Wait), and each process's open
-- descriptors (Files). Process/State has the records; Process/Invariant what holds of the table
-- between two interrupts.
-- Scheduler models question/kernel/scheduler.c: the choice within a type (Longest) and
-- between the types (Choice), the waiting times (Aging), what a call of it leaves alone (Switch),
-- time slices (Slices), and the waiting time of the process that runs (Fresh).
-- Calls models question/kernel/system_calls.c, with a child for each call that has laws of its own.
-- Handler models question/kernel/hilevel.c: the three handlers, and the machine as a relation of
-- steps (Invariant). The calls on files are an interface there, `FileCalls`, which
-- FileSystem/Service fills.
-- Fs models question/kernel/fs.c and fs.h over a block device, an interface that the driver fills
-- (Volume/Driver): bit maps (question/kernel/bitmap.c) and the allocation with them (Alloc), the
-- layout of a disk (Layout) and of its structures in bytes (Bytes), rows of blocks and the
-- superblock (Blocks), inodes and their data (Inodes), directories (Directory in memory,
-- Directories on the disk), paths (Paths), the table of open files (Descriptors), and the opening
-- of files and the initialisation of a disk (Files). Volume/Store says what a disk that stores is.
-- FileSystem models question/kernel/file_system_calls.c: mounting, opening and closing (Mounting),
-- reading and writing (Streams), and the calls on names (Naming).
-- Serial models question/device/PL011.c and Disk question/device/disk.c: the exchange of lines in
-- hexadecimal with the process that serves the disk.
-- Utilities models question/kernel/utilities.c.
-- User models question/user. Requests are the functions of question/user/lib/libc.c that make a system
-- call, as the number and the registers that the handler gets; Text its conversions of numbers,
-- Waiting the loops of `lockm` and `waitp`, and Commands paths and command lines, with the console
-- (question/user/console.c) from an entered line to the program that it starts. Numbers has the
-- computations of question/user/bin/P3.c, P4.c and P5.c, Philosophers
-- question/user/bin/dinning_philosophers.c as a relation of steps, and Programs the other programs
-- of question/user/bin as trees of what they ask and how they go on with the answer.
-- Prelude has the shared lemmas: lists as C arrays, `memmove`, bounded searches, binary digits.
--
-- Conventions. An `int`, a pid, a pointer and a `uint32_t` are their 32-bit patterns: -1 is
-- `minus_one`, sums wrap, and `slt` is the signed comparison. A function that changes the kernel
-- takes and returns the record `Kernel`; one that also returns a value returns a pair. The
-- pointer `current` is the pid of its slot, a pointer to an entry of a table its index. Pids
-- outside 1 to 30 name the memory beside the array, which some calls read, so its content is
-- part of the state. That memory is kept apart from the other fields of the state, and runs in which
-- a call writes there are not among the runs of the machine (Handler/Invariant). A write through NULL
-- is `none`.
-- The functions of fs.c are actions on the superblock in memory and the disk (`Act`, `M`), those of
-- file_system_calls.c actions on the kernel and the files (`Session`), written in do blocks. Their
-- result `none` is a wait that never ends, or an access outside an array or through NULL. A buffer
-- that a function fills is an argument with what it held before and a result. A local variable that
-- is not assigned holds the bytes that the parameter `stack` gives, as C leaves them open.
-- Loops over arrays are recursion on the number of rounds, which is the array's size or the
-- loop's bound, so every function is total.
--
-- Parameters: the value of `1 << n` for n of at least 32 (`wide`), which C leaves open; the
-- address of the console's program; the interrupt controller's answer; the serial ports, with their
-- busy waits; the disk, where a theorem says that it stores; the bytes of local variables that are
-- not assigned; the memory that the user's pointers reach, which does not overlap the kernel's; and
-- what a caller finds where a function ends without `return`.
--
-- On the user side a string is the list of its characters before the closing 0 and a buffer a list of
-- its size. The loops there take fuel: `count_digits` 32, for at most 10 rounds below 10 ^ 9;
-- `is_prime_from` 32768, since the divisor grows by 2 and ends at 65535; `gcd` x + y, since each call
-- takes at least 1 off the sum; `lockm` and `waitp` the number of attempts, with what other
-- processes do between two attempts as a parameter.
--
-- The calls of file_system_calls.c send their messages over the second serial port (`report`).
-- Bit maps are accessed within their words only: an access outside is `none`, as for other arrays.
--
-- Not modelled: the messages of the calls in system_calls.c and hilevel.c, which go to the serial port
-- and change nothing that these calls use, the registers of the devices, the assembly
-- entry code, the process that serves the disk (question/device/disk.py), `sleep`, the loops of P3 to P5
-- that only repeat a computation, the spawning of the philosophers, and question/user/tests/test1.c.
-- The file pointer, which every call starts at 0 and drops, is not written back.
mod Prelude
pub mod Process
pub mod Scheduler
pub mod Calls
pub mod Handler
pub mod Serial
pub mod Disk
pub mod Fs
pub mod FileSystem
pub mod User
pub mod Utilities
mod Tests
