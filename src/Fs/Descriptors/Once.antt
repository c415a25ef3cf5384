-- ===== src/Fs/Descriptors/Once.antt =====
-- question/kernel/fs.c: the table of open files over any series of openings and closings, which
-- starts as question/kernel/file_system_calls.c leaves it.
use assembly_os.Prelude.{
  ℕ, ◌<◌, ◌≡◌, refl, ◌∙◌, ap, sym, subst, true, false, none, some, arith, leb, ltb, set, get_or,
  ◌==◌, inl, inr, Bool-cases, Option-cases, ltb→lt, ltb→le, length-set, get_or-set_self,
  get_or-set_ne, index_where-none, length-delete, origin, origin-injective, replicate,
}
use assembly_os.Process.State.{max_open_files}
use assembly_os.Fs.State.{FileDescriptor, FileDescriptorTable}
use assembly_os.Fs.Descriptors.{
  descriptor, no_descriptor, fdid_to_fd, is_global, add_new, add_fd, close_found, close_file,
}
use assembly_os.Fs.Descriptors.Laws.{IsSized, opened_as, add_fd-new, closed, fdid_to_fd-found}
use assembly_os.Fs.Descriptors.Closing.{delete_fd, moved, inside}

-- The table fits its array, and no inode is open twice.
pub record IsOnce (t : FileDescriptorTable) : Type 0 where
  pub sized : IsSized t
  pub once :
      (i j : ℕ)
      → i < t.count
      → j < t.count
      → (descriptor t i).inode_id ≡ (descriptor t j).inode_id
      → i ≡ j

-- As `init_disk_globals` leaves it.
abbrev pub nothing_open : FileDescriptorTable
nothing_open = record { count = 0; opened = replicate max_open_files no_descriptor }

pub data Reachable : FileDescriptorTable → Type 0 where
  empty : Reachable nothing_open
  opening :
      {t : FileDescriptorTable}
      → Reachable t
      → (inode_id flags : ℕ) → Reachable (add_fd t inode_id flags).0
  closing : {t : FileDescriptorTable} → Reachable t → (fd : ℕ) → Reachable (close_file t fd).0

add_fd-full :
    (t : FileDescriptorTable) (inode_id flags : ℕ)
    → leb 10 t.count ≡ true
    → (add_fd t inode_id flags).0 ≡ t
unfolding add_fd
add_fd-full t inode_id flags e = rw e refl

add_fd-open :
    (t : FileDescriptorTable) (inode_id flags k : ℕ)
    → leb 10 t.count ≡ false
    → opened_as t inode_id ≡ some k
    → (add_fd t inode_id flags).0 ≡ t
unfolding add_fd add_new
add_fd-open t inode_id flags k room e = elim (Bool-cases (is_global (descriptor t k))) [
  | inl g ↦ rw (room, e, g) refl
  | inr g ↦ rw (room, e, g) refl
]

close_file-kept :
    (t : FileDescriptorTable) (fd : ℕ) → fdid_to_fd t fd ≡ none → (close_file t fd).0 ≡ t
unfolding close_file close_found
close_file-kept t fd e = rw e refl

close_file-global :
    (t : FileDescriptorTable) (fd i : ℕ)
    → fdid_to_fd t fd ≡ some i
    → is_global (descriptor t i) ≡ true
    → (close_file t fd).0 ≡ t
unfolding close_file close_found
close_file-global t fd i e g = rw (e, g) refl

delete-IsOnce : (t : FileDescriptorTable) (i : ℕ) → IsOnce t → i < t.count → IsOnce (delete_fd t i)
delete-IsOnce t i o h = record {
  sized = record {
    size = length-delete t.opened i t.count no_descriptor h (inside t i (o.sized) h) ∙ o.sized.size;
    fits = omega (arith, o.sized.fits);
  };
  once = λ j m l k e.
      let (a, b, c) = moved t i (o.sized) h j (omega arith) in
      let (a', b', c') = moved t i (o.sized) h m (omega arith) in
      origin-injective i j m (
        o.once (origin i j) (origin i m) a a' (
          ap (λ (d : FileDescriptor). d.inode_id) (sym c)
          ∙ e
          ∙ ap (λ (d : FileDescriptor). d.inode_id) c'));
}

-- The table with one more descriptor, of an inode that is not open.
new-IsOnce :
    (t : FileDescriptorTable) (inode_id flags : ℕ)
    → IsOnce t
    → t.count < 10
    → opened_as t inode_id ≡ none
    → IsOnce (add_new t inode_id flags none).0
unfolding add_new
new-IsOnce t inode_id flags o room new = record {
  sized = record { size = length-set t.opened t.count d ∙ o.sized.size; fits = omega arith };
  once = λ i j h l e. elim (Bool-cases (ltb i t.count)) [
    | inl i_old ↦ elim (Bool-cases (ltb j t.count)) [
      | inl j_old ↦
          let a : i < t.count = ltb→lt i t.count i_old in
          let b : j < t.count = ltb→lt j t.count j_old in
          o.once i j a b (sym (old i a) ∙ e ∙ old j b)
      | inr j_new ↦
          let a : i < t.count = ltb→lt i t.count i_old in
          absurd (apart i a (sym (old i a) ∙ e ∙ added j (omega (arith, ltb→le j t.count j_new))))
    ]
    | inr i_new ↦ elim (Bool-cases (ltb j t.count)) [
      | inl j_old ↦
          let b : j < t.count = ltb→lt j t.count j_old in
          absurd
            (apart j b (sym (old j b) ∙ sym e ∙ added i (omega (arith, ltb→le i t.count i_new))))
      | inr j_new ↦ omega (arith, ltb→le i t.count i_new, ltb→le j t.count j_new)
    ]
  ];
}
  where
    d : FileDescriptor
    d = record { id = t.count; flags = flags; inode_id = inode_id }

    old :
        (i : ℕ)
        → i < t.count
        → (get_or (set t.opened t.count d) i no_descriptor).inode_id ≡ (descriptor t i).inode_id
    old i h =
        ap (λ (x : FileDescriptor). x.inode_id)
          (get_or-set_ne t.opened t.count i d no_descriptor (omega arith))

    added :
        (i : ℕ)
        → i ≡ t.count
        → (get_or (set t.opened t.count d) i no_descriptor).inode_id ≡ inode_id
    added i e =
        ap (λ n. (get_or (set t.opened t.count d) n no_descriptor).inode_id) e
        ∙ ap (λ (x : FileDescriptor). x.inode_id)
            (get_or-set_self t.opened t.count d no_descriptor (omega (arith, o.sized.size)))

    apart : (i : ℕ) → i < t.count → (descriptor t i).inode_id ≡ inode_id → ⊥
    apart i h e =
        let free : ((descriptor t i).inode_id == inode_id) ≡ false =
          index_where-none (λ (x : FileDescriptor). x.inode_id == inode_id) t.count t.opened i
            no_descriptor new h (omega (arith, o.sized.size, o.sized.fits)) in
        absurd (ground arith)

add_fd-IsOnce :
    (t : FileDescriptorTable) (inode_id flags : ℕ) → IsOnce t → IsOnce (add_fd t inode_id flags).0
add_fd-IsOnce t inode_id flags o = elim (Bool-cases (leb 10 t.count)) [
  | inl full ↦ subst IsOnce (sym (add_fd-full t inode_id flags full)) o
  | inr room ↦ elim (Option-cases (opened_as t inode_id)) [
    | inr (k, e) ↦ subst IsOnce (sym (add_fd-open t inode_id flags k room e)) o
    | inl e ↦
        let few : t.count < 10 = ground arith in
        subst IsOnce
          (ap (λ (r : FileDescriptorTable × ℕ). r.0) (sym (add_fd-new t inode_id flags few e)))
          (new-IsOnce t inode_id flags o few e)
  ]
]

close_file-IsOnce : (t : FileDescriptorTable) (fd : ℕ) → IsOnce t → IsOnce (close_file t fd).0
close_file-IsOnce t fd o = elim (Option-cases (fdid_to_fd t fd)) [
  | inl e ↦ subst IsOnce (sym (close_file-kept t fd e)) o
  | inr (i, e) ↦ elim (Bool-cases (is_global (descriptor t i))) [
    | inl g ↦ subst IsOnce (sym (close_file-global t fd i e g)) o
    | inr g ↦
        subst IsOnce (ap (λ (r : FileDescriptorTable × ℕ). r.0) (sym (closed t fd i e g)))
          (delete-IsOnce t i o (fdid_to_fd-found t fd i e).0)
  ]
]

nothing_open-IsOnce : IsOnce nothing_open
nothing_open-IsOnce = record {
  sized = record { size = refl; fits = omega arith };
  once = λ i j h l e. absurd (omega arith);
}

-- The table of open files starts empty, and files are opened and closed in any order, also with
-- failures: the table never holds more than the ten descriptors of its array, and no inode is open in two of them.
pub Reachable-IsOnce : {t : FileDescriptorTable} → Reachable t → IsOnce t
Reachable-IsOnce empty = nothing_open-IsOnce
Reachable-IsOnce (opening {t} r inode_id flags) =
    add_fd-IsOnce t inode_id flags (Reachable-IsOnce r)
Reachable-IsOnce (closing {t} r fd) = close_file-IsOnce t fd (Reachable-IsOnce r)
