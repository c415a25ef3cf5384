-- ===== src/FileSystem/Service/Keeps.antt =====
-- The actions of file_system_calls.c that keep the process table valid: the rules for what they are
-- built from.
use assembly_os.Prelude.{
  ℕ, ◌==◌, minus_one, add32, Bool, true, false, arith, Option, none, some, if◌then◌else◌,
  Bool-cases, inl, inr,
}
use assembly_os.Process.State.{Kernel, running}
use assembly_os.Process.Files.{add_process_fd, remove_process_fd}
use assembly_os.Process.Invariant.{IsValid, modify-IsValid}
use assembly_os.Process.Files.Laws.{add_process_fd-IsValid, remove_process_fd-IsValid}
use assembly_os.Fs.State.{FileDescriptorTable}
use assembly_os.Fs.Descriptors.{close_file, sys_close}
use assembly_os.Fs.Volume.{Act, M, pure, ◌>>=◌, fault}
use assembly_os.FileSystem.{
  System, Session, get_system, modify_system, get_kernel, or_fault, on_kernel, on_volume,
  string_from, string_at, on_uart0, on_uart1,
}
use assembly_os.FileSystem.Streams.{count_io_burst}

-- What an action leaves, where it does not fault.
abbrev pub Valid? : {D U A : Type 0} → Option (A × Session D U) → Type 0
Valid? none = Unit {0}
Valid? (some (a, (k, f))) = IsValid k

pub record Keeps {D U A : Type 0} (m : Act (Session D U) A) : Type 0 where
  pub at : (k : Kernel) (f : System D U) → IsValid k → Valid? (m (k, f))

pub count_io_burst-IsValid : (k : Kernel) → IsValid k → IsValid (count_io_burst k).0
count_io_burst-IsValid k v =
    modify-IsValid k k.current
      (λ p. record p { priority = record (p.priority) { io_burst = add32 p.priority.io_burst 1 } })
      (λ _ _ w. ground arith) v

pub add-IsValid :
    (fd : ℕ) (k : Kernel) → IsValid k → IsValid (add_process_fd k (running k).pid fd).0
add-IsValid fd k v = add_process_fd-IsValid k (running k).pid fd v

pub remove-IsValid :
    (fd : ℕ) (k : Kernel) → IsValid k → IsValid (remove_process_fd k (running k).pid fd).0
remove-IsValid fd k v = remove_process_fd-IsValid k (running k).pid fd v

pub sys_close-IsValid :
    (fd : ℕ) (k : Kernel) (t : FileDescriptorTable) → IsValid k → IsValid (sys_close k t fd).0
unfolding sys_close
sys_close-IsValid fd k t v = elim (Bool-cases ((close_file t fd).1 == minus_one)) [
  | inl failed ↦ rw failed v
  | inr closed ↦ rw closed (remove-IsValid fd k v)
]

module _ {D U : Type 0} where
  -- What follows an access that may fault and leaves the process table as it is.
  after :
      {A B : Type 0} (o : Option B) (k : Kernel) (g : B → A × System D U)
      → IsValid k
      → Valid? {D = D} {U = U} {A = A}
          (elim o [ none ↦ none | some b ↦ some ((g b).0, (k, (g b).1)) ])
  after none k g v = tt
  after (some b) k g v = v

  pub pure-Keeps : {A : Type 0} (a : A) → Keeps {D = D} {U = U} (pure a)
  pure-Keeps a = record { at = λ k f v. v }

  pub fault-Keeps : {A : Type 0} → Keeps {D = D} {U = U} {A = A} fault
  fault-Keeps = record { at = λ k f v. tt }

  pub bind-Keeps :
      {A B : Type 0} (m : Act (Session D U) A) (g : A → Act (Session D U) B)
      → Keeps m
      → ((a : A) → Keeps (g a))
      → Keeps (m >>= g)
  bind-Keeps {A} {B} m g p q = record { at = λ k f v. next (m (k, f)) (p.at k f v) }
    where
      next :
          (o : Option (A × Session D U))
          → Valid? o
          → Valid? {A = B} (elim o [ none ↦ none | some (a, s) ↦ g a s ])
      next none w = tt
      next (some (a, (k, f))) w = (q a).at k f w

  pub if-Keeps :
      {A : Type 0} (b : Bool) (x y : Act (Session D U) A)
      → Keeps x
      → Keeps y
      → Keeps (if b then x else y)
  if-Keeps true x y p q = p
  if-Keeps false x y p q = q

  pub get_system-Keeps : Keeps {D = D} {U = U} get_system
  get_system-Keeps = record { at = λ k f v. v }

  pub get_kernel-Keeps : Keeps {D = D} {U = U} get_kernel
  get_kernel-Keeps = record { at = λ k f v. v }

  pub modify_system-Keeps : (g : System D U → System D U) → Keeps (modify_system g)
  modify_system-Keeps g = record { at = λ k f v. v }

  pub on_kernel-Keeps :
      (g : Kernel → Kernel × ℕ)
      → ((k : Kernel) → IsValid k → IsValid (g k).0)
      → Keeps {D = D} {U = U} (on_kernel g)
  on_kernel-Keeps g h = record { at = λ k f v. h k v }

  pub on_volume-Keeps : {A : Type 0} (m : M D A) → Keeps {D = D} {U = U} (on_volume m)
  on_volume-Keeps {A} m = record { at = λ k f v. mounted k f v f.is_mounted }
    where
      mounted :
          (k : Kernel) (f : System D U)
          → IsValid k
          → (b : Bool)
          → Valid? {D = D} {U = U} {A = A} (
              if b
              then elim (m f.volume) [
                | none ↦ none
                | some (a, w) ↦ some (a, (k, record f { volume = w }))
              ]
              else none)
      mounted k f v true = after (m f.volume) k (λ (a, w). (a, record f { volume = w })) v
      mounted k f v false = tt

  pub or_fault-Keeps : {A : Type 0} (o : Option A) → Keeps {D = D} {U = U} (or_fault o)
  or_fault-Keeps o = record { at = λ k f v. after o k (λ a. (a, f)) v }

  pub string_at-Keeps : (n pointer : ℕ) → Keeps {D = D} {U = U} (string_at n pointer)
  string_at-Keeps n pointer = record {
    at = λ k f v. after (string_from n f.memory pointer) k (λ cs. (cs, f)) v;
  }

  pub on_uart0-Keeps : {A : Type 0} (g : U → Option (A × U)) → Keeps {D = D} {U = U} (on_uart0 g)
  on_uart0-Keeps g = record {
    at = λ k f v. after (g f.uart0) k (λ (a, u). (a, record f { uart0 = u })) v;
  }

  pub on_uart1-Keeps : {A : Type 0} (g : U → Option (A × U)) → Keeps {D = D} {U = U} (on_uart1 g)
  on_uart1-Keeps g = record {
    at = λ k f v. after (g f.uart1) k (λ (a, u). (a, record f { uart1 = u })) v;
  }

pub ruleset keeps_rules = (
  pure-Keeps, fault-Keeps, bind-Keeps, if-Keeps, get_system-Keeps, get_kernel-Keeps,
  modify_system-Keeps, on_kernel-Keeps, on_volume-Keeps, or_fault-Keeps, string_at-Keeps,
  on_uart0-Keeps, on_uart1-Keeps, count_io_burst-IsValid, add-IsValid, remove-IsValid,
)
