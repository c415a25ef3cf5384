-- ===== src/FileSystem.antt =====
-- question/kernel/file_system_calls.c: the state that the calls share, and the user's memory.
-- `none` is a wait that never ends or an access
-- outside an array or through NULL.
pub mod Mounting
pub mod Streams
pub mod Naming
pub mod Service
use assembly_os.Prelude.{
  ℕ, zero, suc, ◌+◌, ◌/◌, ◌%◌, Option, none, some, List, [], ◌∷◌, ◌++◌, ◌==◌, if◌then◌else◌, add32,
  Bool, minus_one,
}
use assembly_os.Process.State.{Kernel}
use assembly_os.Fs.State.{Superblock, Directory, FileDescriptorTable}
use assembly_os.Fs.Bytes.{word_bytes}
use assembly_os.Fs.Volume.{Volume, Act, M, pure, ◌>>=◌, ◌>>◌, guard, Platform}
use assembly_os.Serial.{Uart}
use assembly_os.Utilities.{error}

-- `is_mounted` is whether the pointers `mounted` and `root_dir` are not NULL. `memory` is what the
-- pointers that are passed to the calls point into, by bytes.
pub record System (D : Type 0) (U : Type 0) : Type 0 where
  pub volume : Volume D
  pub is_mounted : Bool
  pub root_dir : Directory
  pub open_files : FileDescriptorTable
  pub stdin_fd : ℕ
  pub stdout_fd : ℕ
  pub stderr_fd : ℕ
  pub uart0 : U
  pub uart1 : U
  pub memory : ℕ → ℕ

-- What the calls run on beside the file system's platform: the serial ports, and the value that a
-- caller finds where a function ends without `return`.
pub record Machine (D : Type 0) (U : Type 0) : Type 0 where
  pub platform : Platform D
  pub serial : Uart U
  pub no_return : ℕ

abbrev pub Session : Type 0 → Type 0 → Type 0
Session D U = Kernel × System D U

abbrev pub get_system : {D U : Type 0} → Act (Session D U) (System D U)
get_system (k, f) = some (f, (k, f))

abbrev pub modify_system : {D U : Type 0} → (System D U → System D U) → Act (Session D U) (Unit {0})
modify_system g (k, f) = some (tt, (k, g f))

abbrev pub get_kernel : {D U : Type 0} → Act (Session D U) Kernel
get_kernel (k, f) = some (k, (k, f))

abbrev pub or_fault : {D U A : Type 0} → Option A → Act (Session D U) A
or_fault o s = elim o [ none ↦ none | some a ↦ some (a, s) ]

-- A call of processes.c that returns a status.
abbrev pub on_kernel : {D U : Type 0} → (Kernel → Kernel × ℕ) → Act (Session D U) ℕ
on_kernel g (k, f) = let (k', r) = g k in some (r, (k', f))

-- A function of fs.c on the superblock that `mounted` points to.
abbrev pub on_volume : {D U A : Type 0} → M D A → Act (Session D U) A
on_volume m (k, f) =
    if f.is_mounted
    then elim (m f.volume) [ none ↦ none | some (a, v) ↦ some (a, (k, record f { volume = v })) ]
    else none

abbrev pub set_root : {D U : Type 0} → Directory → Act (Session D U) (Unit {0})
set_root dir = modify_system (λ f. record f { root_dir = dir })

abbrev pub set_table : {D U : Type 0} → FileDescriptorTable → Act (Session D U) (Unit {0})
set_table t = modify_system (λ f. record f { open_files = t })

abbrev pub on_uart0 : {D U A : Type 0} → (U → Option (A × U)) → Act (Session D U) A
on_uart0 g (k, f) = elim (g f.uart0) [
  | none ↦ none
  | some (a, u) ↦ some (a, (k, record f { uart0 = u }))
]

abbrev pub on_uart1 : {D U A : Type 0} → (U → Option (A × U)) → Act (Session D U) A
on_uart1 g (k, f) = elim (g f.uart1) [
  | none ↦ none
  | some (a, u) ↦ some (a, (k, record f { uart1 = u }))
]

-- A message on the standard error, and -1.
abbrev pub sent : {U : Type 0} → Option U → Option (Unit {0} × U)
sent none = none
sent (some u) = some (tt, u)

abbrev pub report : {D U : Type 0} → Machine D U → List ℕ → Act (Session D U) (Unit {0})
report m msg = on_uart1 (λ u. sent (error m.serial u msg))

abbrev pub failed : {D U : Type 0} → Machine D U → List ℕ → Act (Session D U) ℕ
failed m msg = report m msg >> pure minus_one

-- The characters from `pointer` up to the 0, which must be among the first `n`.
unfoldable pub string_from : ℕ → (ℕ → ℕ) → ℕ → Option (List ℕ)
string_from zero memory pointer = none
string_from (suc n) memory pointer =
    let rest = string_from n memory (add32 pointer 1) in
    if memory pointer == 0
    then some []
    else elim rest [ none ↦ none | some cs ↦ some (memory pointer ∷ cs) ]

abbrev pub string_at : {D U : Type 0} → ℕ → ℕ → Act (Session D U) (List ℕ)
string_at n pointer (k, f) = elim (string_from n f.memory pointer) [
  | none ↦ none
  | some cs ↦ some (cs, (k, f))
]

-- The path that the kernel copies from the user's memory.
abbrev pub user_string : {D U : Type 0} → ℕ → Act (Session D U) (List ℕ)
user_string pointer = string_at 1024 pointer

unfoldable pub bytes_from : ℕ → (ℕ → ℕ) → ℕ → List ℕ
bytes_from zero memory pointer = []
bytes_from (suc n) memory pointer = memory pointer ∷ bytes_from n memory (add32 pointer 1)

unfoldable pub put_bytes : List ℕ → ℕ → (ℕ → ℕ) → ℕ → ℕ
put_bytes [] pointer memory = memory
put_bytes (b ∷ bs) pointer memory =
    put_bytes bs (add32 pointer 1) (λ a. if a == pointer then b else memory a)

abbrev pub store_bytes : {D U : Type 0} → ℕ → List ℕ → Act (Session D U) (Unit {0})
store_bytes pointer bytes =
    modify_system (λ f. record f { memory = put_bytes bytes pointer f.memory })
