-- ===== src/Fs/Directories/Laws.antt =====
-- What the creation of a file refuses.
use assembly_os.Prelude.{
  ℕ, ◌≤◌, ◌<◌, ◌≡◌, refl, arith, false, ◌⊎◌, inl, inr, Bool-cases, some, List, slt, add32,
  minus_one, is_error,
}
use assembly_os.Fs.State.{Directory}
use assembly_os.Fs.Directory.{directory_lookup}
use assembly_os.Fs.Directories.{create_file}
use assembly_os.Fs.Volume.{Platform, Volume}

module _ {D : Type 0} (p : Platform D) where
  -- Where a directory has a file of the name, or nine files or more, the creation of a file in it
  -- returns -1 and changes neither the directory nor the superblock nor the disk: the tenth link of a
  -- directory is never used.
  pub create_file_refused :
      (dir : Directory) (filename : List ℕ) (type : ℕ) (v : Volume D)
      → (is_error (directory_lookup dir filename) ≡ false)
        ⊎ ((9 ≤ dir.files_count) × (dir.files_count < 2147483647))
      → create_file p dir filename type v ≡ some ((minus_one, dir), v)
  unfolding create_file
  create_file_refused dir filename type v (inl present) = rw present refl
  create_file_refused dir filename type v (inr (full, small)) =
      let no_room : slt (add32 dir.files_count 1) 10 ≡ false = ground arith in
      elim (Bool-cases (is_error (directory_lookup dir filename))) [
        | inl missing ↦ rw (missing, no_room) refl
        | inr present ↦ rw present refl
      ]
