-- ===== src/Fs/Files/Laws.antt =====
-- The opening of a file that cannot be created.
use assembly_os.Prelude.{
  ℕ, ◌≤◌, ◌<◌, ◌≡◌, refl, ap, ◌∙◌, arith, true, false, inr, none, some, List, [], ◌∷◌, ◌==◌, leb,
  minus_one, is_error, length, index_where, get_or-set_self,
}
use assembly_os.Fs.State.{Directory, FileDescriptor, FileDescriptorTable, inode_file}
use assembly_os.Fs.Volume.{Platform, Volume}
use assembly_os.Fs.Volume.Laws.{bind-eq}
use assembly_os.Fs.Descriptors.{add_fd, descriptor}
use assembly_os.Fs.Directories.{create_file}
use assembly_os.Fs.Directories.Laws.{create_file_refused}
use assembly_os.Fs.Paths.{slash, path_to_inode_id}
use assembly_os.Fs.Paths.Laws.{IsPart, parse_filename_lem}
use assembly_os.Fs.Files.{parent_directory, creates, open_at, open_parsed, open_file}

-- A descriptor for a file that is not open is the next one.
add_fd-next :
    (t : FileDescriptorTable) (inode_id flags : ℕ)
    → t.count < 10
    → length t.opened ≡ 10
    → index_where (λ (d : FileDescriptor). d.inode_id == inode_id) t.count t.opened ≡ none
    → ((add_fd t inode_id flags).1 ≡ t.count)
      × ((descriptor (add_fd t inode_id flags).0 t.count).inode_id ≡ inode_id)
unfolding add_fd
add_fd-next t inode_id flags room size new =
    let few : leb 10 t.count ≡ false = ground arith in
    rw (few, new)
      (
        refl,
        ap (λ (d : FileDescriptor). d.inode_id)
            (get_or-set_self t.opened t.count _ _ (omega arith)),
      )

module _ {D : Type 0} (p : Platform D) where
  open_at-full :
      (t : FileDescriptorTable) (dir : Directory) (filename : List ℕ) (flags e : ℕ) (v w : Volume D)
      → path_to_inode_id p dir filename v ≡ some (e, w)
      → is_error e ≡ true
      → creates flags ≡ true
      → 9 ≤ dir.files_count
      → dir.files_count < 2147483647
      → open_at p t dir filename flags v
        ≡ some (((add_fd t minus_one flags).1, (add_fd t minus_one flags).0), w)
  unfolding open_at
  open_at-full t dir filename flags e v w found missing creating full small =
      bind-eq (path_to_inode_id p dir filename) _ v _ found
      ∙ rw (missing, creating)
          (bind-eq (create_file p dir filename inode_file) _ w _
            (create_file_refused p dir filename inode_file w (inr (full, small))))

  -- An opening for writing of a file in the root directory, where the directory has nine links or more
  -- and the file, whose name has from 1 to 99 characters and no separator, is not found: where the
  -- table of open files has room and no file is open under the number -1, it returns the next
  -- descriptor, which stands for the inode -1, although the file was not created.
  pub open_file_lost :
      (t : FileDescriptorTable) (dir : Directory) (c : ℕ) (name : List ℕ) (flags e : ℕ)
      (v w : Volume D)
      → IsPart (c ∷ name)
      → length (c ∷ name) < 100
      → path_to_inode_id p dir (c ∷ name) v ≡ some (e, w)
      → is_error e ≡ true
      → creates flags ≡ true
      → 9 ≤ dir.files_count
      → dir.files_count < 2147483647
      → t.count < 10
      → length t.opened ≡ 10
      → index_where (λ (d : FileDescriptor). d.inode_id == minus_one) t.count t.opened ≡ none
      → (t' : FileDescriptorTable) × (open_file p t dir (slash ∷ (c ∷ name)) flags v
          ≡ some ((t.count, t'), w))
        × ((descriptor t' t.count).inode_id ≡ minus_one)
  unfolding open_file open_parsed parent_directory
  open_file_lost t dir c name flags e v w part short found missing creating full small room size
        new =
      let (id, lost) = add_fd-next t minus_one flags room size new in
      let (parsed, ended, bare) = parse_filename_lem [] name c part short (omega (arith, short)) in
      (
        (add_fd t minus_one flags).0,
        rw parsed (
            open_at-full t dir (c ∷ name) flags e v w found missing creating full small
            ∙ ap (λ fd. some ((fd, (add_fd t minus_one flags).0), w)) id),
        lost,
      )
