-- ===== src/Fs/Descriptors/Laws.antt =====
-- What opening and closing do to the table of open files, and who may use a descriptor.
use native.Mathlib.Numerals.{add-one}
use assembly_os.Prelude.{
  ℕ, ◌+◌, ◌-◌, ◌≤◌, ◌<◌, ◌≡◌, ◌≢◌, ◌⊎◌, inl, inr, arith, false, length, some, none, Option,
  Option-cases, leb, refl, ◌==◌, index_where, index_where-found, index_where-only,
  index_where-nothing, index_where-set_end, get_or-set_self, memmove,
}
use assembly_os.Process.State.{Kernel}
use assembly_os.Process.Files.{proc_fd_open}
use assembly_os.Fs.State.{
  FileDescriptor, FileDescriptorTable, read, write, read_write, read_global, write_global,
}
use assembly_os.Fs.Descriptors.{
  descriptor, no_descriptor, fdid_to_fd, is_global, add_new, add_fd, close_found, close_file,
  permission, permission_at, process_has_file_permission,
}

pub record IsSized (t : FileDescriptorTable) : Type 0 where
  pub size : length t.opened ≡ 10
  pub fits : t.count ≤ 10

-- No two open descriptors have the same id.
abbrev pub IsDistinct : FileDescriptorTable → Type 0
IsDistinct t =
    (i j : ℕ) → i < t.count → j < t.count → (descriptor t i).id ≡ (descriptor t j).id → i ≡ j

-- The index of the open descriptor of an inode.
abbrev pub opened_as : FileDescriptorTable → ℕ → Option ℕ
opened_as t inode_id = index_where (λ (d : FileDescriptor). d.inode_id == inode_id) t.count t.opened

pub add_fd-new :
    (t : FileDescriptorTable) (inode_id flags : ℕ)
    → t.count < 10
    → opened_as t inode_id ≡ none
    → add_fd t inode_id flags ≡ add_new t inode_id flags none
unfolding add_fd
add_fd-new t inode_id flags room new =
    let free : leb 10 t.count ≡ false = ground arith in rw (free, new)

-- If the file is not open yet and the number of open files is no descriptor's id, `add_fd` opens
-- the file under that number: its id leads to a descriptor of the file with the flags given.
pub add_fd-fresh :
    (t : FileDescriptorTable) (inode_id flags : ℕ)
    → IsSized t
    → t.count < 10
    → opened_as t inode_id ≡ none
    → fdid_to_fd t t.count ≡ none
    → let (t', fd) = add_fd t inode_id flags in
      (fd ≡ t.count)
      × (fdid_to_fd t' fd ≡ some t.count)
      × (descriptor t' t.count ≡ record { id = fd; flags = flags; inode_id = inode_id })
unfolding add_new fdid_to_fd
add_fd-fresh t inode_id flags s room new fresh = rw (add_fd-new t inode_id flags room new) (
  refl,
  rw add-one (
      index_where-set_end (λ (d : FileDescriptor). d.id == t.count) t.count t.opened
        (record { id = t.count; flags = flags; inode_id = inode_id }) fresh (ground arith)
        (omega (arith, s.size))),
  get_or-set_self t.opened t.count _ no_descriptor (omega (arith, s.size)),
)

pub closed :
    (t : FileDescriptorTable) (fd i : ℕ)
    → fdid_to_fd t fd ≡ some i
    → is_global (descriptor t i) ≡ false
    → close_file t fd
      ≡ (record { count = t.count - 1; opened = memmove t.opened i (i + 1) (t.count - 1 - i) }, 0)
unfolding close_file close_found
closed t fd i e own = rw (e, own) refl

-- A number is given by a search for an id.
pub fdid_to_fd-found :
    (t : FileDescriptorTable) (fd i : ℕ)
    → fdid_to_fd t fd ≡ some i
    → (i < t.count) × ((descriptor t i).id ≡ fd)
unfolding fdid_to_fd
fdid_to_fd-found t fd i e =
    let (a, b, c) =
      index_where-found (λ (d : FileDescriptor). d.id == fd) t.count t.opened i no_descriptor e in
    (a, ground (arith, c))

pub fdid_to_fd-only :
    (t : FileDescriptorTable) (fd i : ℕ)
    → i < t.count
    → t.count ≤ length t.opened
    → (descriptor t i).id ≡ fd
    → ((j : ℕ) → j < t.count → (descriptor t j).id ≡ fd → j ≡ i)
    → fdid_to_fd t fd ≡ some i
unfolding fdid_to_fd
fdid_to_fd-only t fd i h l e only =
    index_where-only (λ (d : FileDescriptor). d.id == fd) t.count t.opened i no_descriptor h
      (omega arith) (ground arith) (λ j a b c. only j a (ground arith))

pub fdid_to_fd-nothing :
    (t : FileDescriptorTable) (fd : ℕ)
    → ((j : ℕ) → j < t.count → (descriptor t j).id ≢ fd)
    → fdid_to_fd t fd ≡ none
unfolding fdid_to_fd
fdid_to_fd-nothing t fd h =
    index_where-nothing (λ (d : FileDescriptor). d.id == fd) t.count t.opened no_descriptor
      (λ j a b c. h j a (ground arith))

-- A process may use a descriptor only if the file is open, and then either globally in the mode
-- that is asked for, or in that mode or for both and open to the process itself.
pub process_has_file_permission_lem :
    (k : Kernel) (t : FileDescriptorTable) (pid fdid mode : ℕ)
    → process_has_file_permission k t pid fdid mode ≡ 1
    → (i : ℕ) × (fdid_to_fd t fdid ≡ some i)
      × (((mode ≡ read) × ((descriptor t i).flags ≡ read_global))
          ⊎ (((mode ≡ write) × ((descriptor t i).flags ≡ write_global))
              ⊎ ((((descriptor t i).flags ≡ read_write) ⊎ ((descriptor t i).flags ≡ mode))
                  × (proc_fd_open k pid fdid ≡ 1))))
unfolding process_has_file_permission permission_at permission
process_has_file_permission_lem k t pid fdid mode e = elim (Option-cases (fdid_to_fd t fdid)) [
  | inl closed ↦ absurd (ground arith)
  | inr (i, found) ↦ (i, found, ground arith)
]
