-- ===== src/Fs/Descriptors/Closing.antt =====
-- Closing a file: its descriptor goes, the others keep their ids. What the next opening makes of it.
use native.Mathlib.Numerals.{add-one}
use assembly_os.Prelude.{
  ℕ, ◌+◌, ◌-◌, ◌≤◌, ◌<◌, ◌≡◌, ◌≢◌, arith, false, length, some, none, refl, ap, sym, ◌∙◌, ◌==◌,
  index_where-set_past, delete, origin, origin-injective, delete-origin, delete-stays,
  length-delete, get_or-set_ne,
}
use assembly_os.Fs.State.{FileDescriptor, FileDescriptorTable}
use assembly_os.Fs.Descriptors.{
  descriptor, no_descriptor, fdid_to_fd, is_global, add_new, add_fd, close_file,
}
use assembly_os.Fs.Descriptors.Laws.{
  IsSized, IsDistinct, opened_as, closed, fdid_to_fd-found, fdid_to_fd-only, fdid_to_fd-nothing,
  add_fd-new,
}

-- The table after the descriptor at `i` is deleted.
abbrev pub delete_fd : FileDescriptorTable → ℕ → FileDescriptorTable
delete_fd t i = record { count = t.count - 1; opened = delete t.opened i t.count }

module _ (t : FileDescriptorTable) (i : ℕ) (s : IsSized t) (h : i < t.count) where
  pub inside : t.count ≤ length t.opened
  inside = omega (arith, s.size, s.fits)

  -- Where a descriptor of the new table stood before.
  pub moved :
      (j : ℕ)
      → j + 1 < t.count
      → (origin i j < t.count)
        × (origin i j ≢ i)
        × (descriptor (delete_fd t i) j ≡ descriptor t (origin i j))
  moved = delete-origin t.opened i t.count no_descriptor h inside

  module _ (distinct : IsDistinct t) where
    closed_gone : fdid_to_fd (delete_fd t i) (descriptor t i).id ≡ none
    closed_gone = fdid_to_fd-nothing (delete_fd t i) (descriptor t i).id (λ j l e.
        let (a, b, c) = moved j (omega arith) in
        b (distinct (origin i j) i a h (ap (λ (d : FileDescriptor). d.id) (sym c) ∙ e)))

    others_stay :
        (g j : ℕ)
        → g ≢ (descriptor t i).id
        → fdid_to_fd t g ≡ some j
        → (m : ℕ) × (fdid_to_fd (delete_fd t i) g ≡ some m)
          × (descriptor (delete_fd t i) m ≡ descriptor t j)
    others_stay g j ne e =
        let (below, named) = fdid_to_fd-found t g j e in
        let (m, l, o) =
          delete-stays t.opened i t.count no_descriptor h inside j below
            (λ z. ne (sym named ∙ ap (λ x. (descriptor t x).id) z)) in
        let (a, b, c) = moved m l in
        let same = c ∙ ap (descriptor t) o in
        (
          m,
          fdid_to_fd-only (delete_fd t i) g m (omega arith)
              (omega (arith, length-delete t.opened i t.count no_descriptor h inside, inside))
              (ap (λ (d : FileDescriptor). d.id) same ∙ named)
              (λ j' l' e'.
                let (a', b', c') = moved j' (omega arith) in
                origin-injective i j' m (
                  distinct (origin i j') j a' below
                    (ap (λ (d : FileDescriptor). d.id) (sym c') ∙ e' ∙ sym named)
                  ∙ sym o)),
          same,
        )

    delete_fd-IsDistinct : IsDistinct (delete_fd t i)
    delete_fd-IsDistinct j m l k e =
        let (a, b, c) = moved j (omega arith) in
        let (a', b', c') = moved m (omega arith) in
        origin-injective i j m (
          distinct (origin i j) (origin i m) a a'
            (ap (λ (d : FileDescriptor). d.id) (sym c) ∙ e ∙ ap (λ (d : FileDescriptor). d.id) c'))

-- A file that is not global is closed with status 0: its id leads to no descriptor any more, and
-- every other id leads to the descriptor it led to before. The ids stay distinct.
pub close_file-removes :
    (t : FileDescriptorTable) (fd i : ℕ)
    → IsSized t
    → IsDistinct t
    → fdid_to_fd t fd ≡ some i
    → is_global (descriptor t i) ≡ false
    → let (t', r) = close_file t fd in
      (r ≡ 0)
      × (fdid_to_fd t' fd ≡ none)
      × ((g j : ℕ)
          → g ≢ fd
          → fdid_to_fd t g ≡ some j
          → (m : ℕ) × (fdid_to_fd t' g ≡ some m) × (descriptor t' m ≡ descriptor t j))
      × IsDistinct t'
close_file-removes t fd i s distinct e own =
    let (h, named) = fdid_to_fd-found t fd i e in
    rw (closed t fd i e own) (
      refl,
      ap (fdid_to_fd (delete_fd t i)) (sym named) ∙ closed_gone t i s h distinct,
      λ g j ne. others_stay t i s h distinct g j (λ z. ne (z ∙ named)),
      delete_fd-IsDistinct t i s h distinct,
    )

-- The ids are the positions, as after a series of openings.
abbrev pub IsNumbered : FileDescriptorTable → Type 0
IsNumbered t = (i : ℕ) → i < t.count → (descriptor t i).id ≡ i

numbered_found :
    (t : FileDescriptorTable) (c : ℕ)
    → IsSized t
    → IsNumbered t
    → c < t.count
    → fdid_to_fd t c ≡ some c
numbered_found t c s numbered h =
    fdid_to_fd-only t c c h (omega (arith, s.size, s.fits)) (numbered c h)
      (λ j l e. sym (numbered j l) ∙ e)

-- After the deletion of one before the last, the last id is found in the last place.
last_found :
    (t : FileDescriptorTable) (c : ℕ)
    → IsSized t
    → IsNumbered t
    → c + 1 < t.count
    → fdid_to_fd (delete_fd t c) (t.count - 1) ≡ some (t.count - 2)
last_found t c s numbered h =
    let (a, b, e) = moved t c s (omega arith) (t.count - 2) (omega arith) in
    let last : origin c (t.count - 2) ≡ t.count - 1 = ground arith in
    fdid_to_fd-only (delete_fd t c) (t.count - 1) (t.count - 2) (omega arith)
      (omega (
        arith,
        length-delete t.opened c t.count no_descriptor (omega arith) (inside t c s (omega arith)),
        s.size,
        s.fits,
      ))
      (ap (λ (d : FileDescriptor). d.id) e ∙ numbered (origin c (t.count - 2)) a ∙ last)
      (λ j l e'.
        let (a', b', c') = moved t c s (omega arith) j (omega arith) in
        origin-injective c j (t.count - 2) (
          sym (numbered (origin c j) a')
          ∙ ap (λ (d : FileDescriptor). d.id) (sym c')
          ∙ e'
          ∙ sym last))

-- Files are opened under the numbers 0, 1, ..., and one but the last of them, not a global one, is
-- closed. The next file that is opened gets the id of the last one again, and the id leads to that
-- file's descriptor, not to the new one.
pub add_fd-close_file_shared :
    (t : FileDescriptorTable) (c inode_id flags : ℕ)
    → IsSized t
    → IsNumbered t
    → c + 1 < t.count
    → is_global (descriptor t c) ≡ false
    → opened_as (close_file t c).0 inode_id ≡ none
    → let (t', fd) = add_fd (close_file t c).0 inode_id flags in
      (fd ≡ (descriptor t (t.count - 1)).id)
      × (fdid_to_fd t' fd ≡ some (t.count - 2))
      × (descriptor t' (t.count - 2) ≡ descriptor t (t.count - 1))
unfolding add_new fdid_to_fd
add_fd-close_file_shared t c inode_id flags s numbered h own new =
    let shut =
      ap (λ (r : FileDescriptorTable × ℕ). r.0)
        (closed t c c (numbered_found t c s numbered (omega arith)) own) in
    let new' = ap (λ r. opened_as r inode_id) (sym shut) ∙ new in
    let (a, b, e) = moved t c s (omega arith) (t.count - 2) (omega arith) in
    let last : origin c (t.count - 2) ≡ t.count - 1 = ground arith in
    rw (shut, add_fd-new (delete_fd t c) inode_id flags (omega (arith, s.fits)) new')
      (
        sym (numbered (t.count - 1) (omega arith)),
        rw add-one (
            index_where-set_past (λ (d : FileDescriptor). d.id == t.count - 1) (t.count - 1)
              (delete_fd t c).opened (t.count - 2) _ (last_found t c s numbered h)),
        get_or-set_ne (delete_fd t c).opened (t.count - 1) (t.count - 2) _ no_descriptor
              (omega arith)
            ∙ e
            ∙ ap (descriptor t) last,
      )
