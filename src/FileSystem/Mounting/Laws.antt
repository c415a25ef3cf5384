-- ===== src/FileSystem/Mounting/Laws.antt =====
-- After an unmount the disk is not reached any more.
use assembly_os.Prelude.{
  ℕ, ◌≡◌, refl, ap, subst, arith, Bool, true, false, Option, none, some, List, if◌then◌else◌,
  minus_one, is_error, ◌∙◌, Bool-cases, inl, inr,
}
use assembly_os.Prelude.{codes}
use assembly_os.Fs.Paths.{parse_filename}
use assembly_os.Process.State.{Kernel}
use assembly_os.Fs.Volume.{Act, M, pure, ◌>>=◌, ◌>>◌}
use assembly_os.Fs.Volume.Laws.{resume, bind-eq}
use assembly_os.FileSystem.{
  System, Machine, Session, get_system, modify_system, on_volume, user_string, string_from,
  string_at, or_fault, failed,
}
use assembly_os.FileSystem.Naming.{sys_ls, sys_stat}
use assembly_os.FileSystem.Mounting.{init_disk_globals, open_here, sys_mount, sys_unmount, sys_open}

-- The path is refused, without a fault.
abbrev pub is_refused : Option (ℕ × List ℕ × List ℕ) → Bool
is_refused none = false
is_refused (some (status, filename, directory)) = is_error status

-- The disk is not mounted where the action returns 0.
abbrev Released? : {D U : Type 0} → Option (ℕ × Session D U) → Type 0
Released? none = Unit {0}
Released? (some (r, (k, f))) = (r ≡ 0) → f.is_mounted ≡ false

record Releases {D U : Type 0} (m : Act (Session D U) ℕ) : Type 0 where
  at : (s : Session D U) → Released? (m s)

-- The action goes through the pointer to the superblock where that is NULL.
record Faults {D U A : Type 0} (m : Act (Session D U) A) : Type 0 where
  at : (k : Kernel) (f : System D U) → f.is_mounted ≡ false → m (k, f) ≡ none

module _ {D U : Type 0} where
  volume-Faults : {A : Type 0} (m : M D A) → Faults {D = D} {U = U} (on_volume m)
  volume-Faults m = record { at = λ k f h. rw h refl }

  bind-Faults :
      {A B : Type 0} (m : Act (Session D U) A) (g : A → Act (Session D U) B)
      → Faults m
      → Faults (m >>= g)
  bind-Faults m g p = record { at = λ k f h. ap (resume g) (p.at k f h) }

  get_system-Faults :
      {B : Type 0} (g : System D U → Act (Session D U) B)
      → ((f : System D U) → Faults (g f))
      → Faults (get_system >>= g)
  get_system-Faults g p = record { at = λ k f h. (p f).at k f h }

  user_string-Faults :
      {B : Type 0} (pointer : ℕ) (g : List ℕ → Act (Session D U) B)
      → ((path : List ℕ) → Faults (g path))
      → Faults (user_string pointer >>= g)
  user_string-Faults pointer g p = record {
    at = λ k f h. next k f h (string_from 1024 f.memory pointer);
  }
    where
      next :
          (k : Kernel) (f : System D U)
          → f.is_mounted ≡ false
          → (o : Option (List ℕ))
          → resume g (elim o [ none ↦ none | some cs ↦ some (cs, (k, f)) ]) ≡ none
      next k f h none = refl
      next k f h (some cs) = (p cs).at k f h

  failed-Releases : Releases {D = D} {U = U} (pure minus_one)
  failed-Releases = record { at = λ s e. absurd (omega (arith, e)) }

  unmounted-Releases :
      Releases {D = D} {U = U} (modify_system (λ f. record f { is_mounted = false }) >> pure 0)
  unmounted-Releases = record { at = λ s e. refl }

  bind-Releases :
      {A : Type 0} (m : Act (Session D U) A) (g : A → Act (Session D U) ℕ)
      → ((a : A) → Releases (g a))
      → Releases (m >>= g)
  bind-Releases {A} m g q = record { at = λ s. next (m s) }
    where
      next : (o : Option (A × Session D U)) → Released? (resume g o)
      next none = tt
      next (some (a, s)) = (q a).at s

  if-Releases :
      (b : Bool) (x y : Act (Session D U) ℕ)
      → Releases x
      → Releases y
      → Releases (if b then x else y)
  if-Releases true x y p q = p
  if-Releases false x y p q = q

ruleset faults_rules = (volume-Faults, bind-Faults, get_system-Faults, user_string-Faults)

module _ {D U : Type 0} (m : Machine D U) where
  init_disk_globals-Faults : Faults (init_disk_globals m)
  unfolding init_disk_globals
  init_disk_globals-Faults = search (volume-Faults, bind-Faults)

  sys_mount-Faults : Faults (sys_mount m)
  unfolding sys_mount
  sys_mount-Faults = search (init_disk_globals-Faults, bind-Faults)

  -- What is left of an opening: its path is parsed, and the rest goes through NULL.
  open_here-unmounted :
      (path : List ℕ) (flags : ℕ) (k : Kernel) (f : System D U)
      → f.is_mounted ≡ false
      → open_here m path flags (k, f)
        ≡ (if is_refused (parse_filename path) then some (minus_one, (k, f)) else none)
  unfolding open_here
  open_here-unmounted path flags k f h = cases (parse_filename path) refl
    where
      cases :
          (o : Option (ℕ × List ℕ × List ℕ))
          → parse_filename path ≡ o
          → open_here m path flags (k, f)
            ≡ (if is_refused o then some (minus_one, (k, f)) else none)
      cases none e = rw (open_here, or_fault, e) refl
      cases (some (status, filename, directory)) e = elim (Bool-cases (is_error status)) [
        | inl refused ↦ rw (open_here, or_fault, e, refused) refl
        | inr parsed ↦ rw (open_here, or_fault, e, parsed, h) refl
      ]

  sys_open-unmounted :
      (pointer flags : ℕ) (path : List ℕ) (k : Kernel) (f : System D U)
      → f.is_mounted ≡ false
      → string_from 1024 f.memory pointer ≡ some path
      → sys_open m pointer flags (k, f) ≡ (
          if is_refused (parse_filename path)
          then failed m (codes "Failed to open file\n") (k, f)
          else none)
  unfolding sys_open
  sys_open-unmounted pointer flags path k f h e =
      bind-eq (user_string pointer) _ (k, f) (some (path, (k, f)))
        (rw (user_string, string_at, e) refl)
      ∙ (bind-eq (open_here m path flags) _ (k, f) _ (open_here-unmounted path flags k f h)
          ∙ elim (Bool-cases (is_refused (parse_filename path))) [
            | inl refused ↦ rw refused refl
            | inr parsed ↦ rw parsed refl
          ])

  sys_ls-Faults : (pointer file_list : ℕ) → Faults (sys_ls m pointer file_list)
  unfolding sys_ls
  sys_ls-Faults pointer file_list = search faults_rules

  sys_stat-Faults : (pointer file_info : ℕ) → Faults (sys_stat m pointer file_info)
  unfolding sys_stat
  sys_stat-Faults pointer file_info = search faults_rules

  unmount_again :
      (k : Kernel) (f : System D U)
      → f.is_mounted ≡ false
      → sys_unmount m (k, f) ≡ failed m (codes "Disk not mounted\n") (k, f)
  unfolding sys_unmount
  unmount_again k f h = rw h refl

  sys_unmount-Releases : Releases (sys_unmount m)
  unfolding sys_unmount
  sys_unmount-Releases =
      search (unmounted-Releases, failed-Releases, if-Releases, bind-Releases) depth 12

  -- After an unmount that succeeds, a second one reports that the disk is not mounted and returns
  -- -1. A mount, a listing and a description of a file go through the pointers that are NULL now,
  -- whatever their arguments. So does an opening, of whatever path the user's pointer leads to,
  -- except where `parse_filename` refuses the path: it then reports the failure and returns -1.
  pub unmount_final :
      (s : Session D U) (k : Kernel) (f : System D U) (pointer argument : ℕ) (path : List ℕ)
      → sys_unmount m s ≡ some (0, (k, f))
      → string_from 1024 f.memory pointer ≡ some path
      → (sys_unmount m (k, f) ≡ failed m (codes "Disk not mounted\n") (k, f))
        × (sys_mount m (k, f) ≡ none)
        × (sys_open m pointer argument (k, f) ≡ (
            if is_refused (parse_filename path)
            then failed m (codes "Failed to open file\n") (k, f)
            else none))
        × (sys_ls m pointer argument (k, f) ≡ none)
        × (sys_stat m pointer argument (k, f) ≡ none)
  unmount_final s k f pointer argument path e there =
      let h : f.is_mounted ≡ false = subst Released? e (sys_unmount-Releases.at s) refl in
      (
        unmount_again k f h,
        sys_mount-Faults.at k f h,
        sys_open-unmounted pointer argument path k f h there,
        (sys_ls-Faults pointer argument).at k f h,
        (sys_stat-Faults pointer argument).at k f h,
      )
