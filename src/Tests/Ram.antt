-- ===== src/Tests/Ram.antt =====
-- A machine for the tests: a disk in memory, and ports that queue.
use assembly_os.Prelude.{
  ℕ, ◌≡◌, refl, arith, true, Bool-cases, inl, inr, Option, some, none, List, [], ◌∷◌, ◌++◌, ◌==◌,
  if◌then◌else◌, replicate, minus_one, take, length, length-take, length-append, length-replicate,
  take-append,
}
use assembly_os.Serial.{Uart, putc, getc}
use assembly_os.Serial.Laws.{Takes, Gives}
use assembly_os.Fs.Volume.Store.{IsStore}
use assembly_os.Fs.Volume.{BlockDevice, Platform}
use assembly_os.FileSystem.{System, Machine}
use assembly_os.FileSystem.Mounting.{no_superblock, no_open_files}
use assembly_os.Fs.Directories.{no_files}

-- The blocks by address.
abbrev pub Blocks : Type 0
Blocks = ℕ → List ℕ

-- 64 blocks of 1024 bytes.
abbrev pub ram : BlockDevice Blocks
ram = record {
  get_block_num = λ d. some (64, d);
  get_block_len = λ d. some (1024, d);
  write_block = λ a x d. some (0, (λ b. if b == a then x else d b));
  read_block = λ a n d. some (0, take n (d a ++ replicate n 0), d);
}

length-padded : (len : ℕ) (x : List ℕ) → length (take len (x ++ replicate len 0)) ≡ len
length-padded len x =
    length-take len (x ++ replicate len 0)
      (omega (arith, length-append x (replicate len 0), length-replicate {A = ℕ} len 0))

abbrev pub platform : Platform Blocks
platform = record { disk = ram; wide = λ n. 0; stack = λ n d. replicate n 0 }

-- Every number of blocks of every length.
pub ram_store : (len capacity : ℕ) → IsStore platform len capacity
ram_store len capacity = record {
  content = λ d a. take len (d a ++ replicate len 0);
  content_size = λ d a inside. length-padded len (d a);
  stack_size = λ n d. length-replicate n 0;
  write_stores = λ d a x inside size. (
    (λ b. if b == a then x else d b),
    refl,
    (λ b. elim (Bool-cases (b == a)) [
      | inl same ↦ rw same (take-append len x (replicate len 0) size)
      | inr other ↦ rw other refl
    ]),
  );
  read_gives = λ d a inside. (d, refl, (λ b. refl));
}

-- What was sent, the last first, and what will be received.
abbrev pub Queues : Type 0
Queues = List ℕ × List ℕ

abbrev receivable : Queues → Option Queues
receivable (sent, []) = none
receivable (sent, c ∷ cs) = some (sent, c ∷ cs)

abbrev receive : Queues → ℕ × Queues
receive (sent, []) = (0, (sent, []))
receive (sent, c ∷ cs) = (c, (sent, cs))

abbrev pub port : Uart Queues
port = record {
  wait_putc = some;
  wait_getc = receivable;
  write_data = λ c q. (c ∷ q.0, q.1);
  read_data = receive;
}

abbrev pub push : List ℕ → List ℕ → List ℕ
push [] sent = sent
push (c ∷ cs) sent = push cs (c ∷ sent)

pub takes : (cs sent incoming : List ℕ) → Takes port (sent, incoming) cs (push cs sent, incoming)
unfolding putc
takes [] sent incoming = Takes.done
takes (c ∷ cs) sent incoming = Takes.next refl (takes cs (c ∷ sent) incoming)

pub gives : (cs sent incoming : List ℕ) → Gives port (sent, cs ++ incoming) cs (sent, incoming)
unfolding getc
gives [] sent incoming = Gives.nothing
gives (c ∷ cs) sent incoming = Gives.char refl (gives cs sent incoming)

abbrev pub machine : Machine Blocks Queues
machine = record { platform = platform; serial = port; no_return = 0 }

abbrev pub system : System Blocks Queues
system = record {
  volume = record { superblock = no_superblock; device = λ a. replicate 1024 0 };
  is_mounted = true;
  root_dir = no_files;
  open_files = no_open_files;
  stdin_fd = minus_one;
  stdout_fd = minus_one;
  stderr_fd = minus_one;
  uart0 = ([], []);
  uart1 = ([], []);
  memory = λ a. 0;
}
