-- ===== src/User/Programs/Names.antt =====
-- question/user/bin: the programs that make one call on a path or on a process, and `cd`.
use assembly_os.Prelude.{
  ℕ, ◌-◌, Bool, none, some, List, [], ◌∷◌, ◌++◌, ◌==◌, if◌then◌else◌, length, ltb, is_error, get_or,
  codes,
}
use assembly_os.Fs.Paths.{split, slash}
use assembly_os.Fs.Directory.{same_name}
use assembly_os.User.Text.{c_string, atoi, ss}
use assembly_os.User.Commands.{space, newline}
use assembly_os.User.Programs.{
  directory_type, exit_success, exit_failure, lists, stats, removes, removes_dir, makes_dir, kills,
  shows, put, change_dir, complain, Program, exit, fault, ask, tried, fails, with_path,
}

-- What the call writes to the zeroed buffer is printed.
unfoldable pub ls : List ℕ → List ℕ → Program
ls cwd args =
    with_path 100 cwd args
      λ path. tried (lists path) λ a. ask (put (c_string a.bytes)) λ p. exit exit_success

unfoldable pub rm : List ℕ → List ℕ → Program
rm cwd args = with_path 1024 cwd args λ path. tried (removes path) λ a. exit exit_success

unfoldable pub rmdir : List ℕ → List ℕ → Program
rmdir cwd args = with_path 1024 cwd args λ path. tried (removes_dir path) λ a. exit exit_success

unfoldable pub mkdir : List ℕ → List ℕ → Program
mkdir cwd args = with_path 1024 cwd args λ path. tried (makes_dir path) λ a. exit exit_success

unfoldable pub echo : List ℕ → Program
echo args = ask (put args) λ a. exit exit_success

-- A label, a number that `ss` prints into the buffer `b`, and the end of the line.
unfoldable pub show_number : List ℕ → ℕ → List ℕ → (List ℕ → Program) → Program
show_number label n b k = ask (put label) λ l. elim (ss b n) [
  | none ↦ fault
  | some (b', shown) ↦ ask (put shown) λ s. ask (put (newline ∷ [])) λ e. k b'
]

-- `b` is what its array holds before.
unfoldable pub stat : List ℕ → List ℕ → List ℕ → Program
stat b cwd args = with_path 100 cwd args λ path. tried (stats path) λ a.
    show_number (codes "Type: ") a.info.type b λ b1.
      show_number (codes "Size (bytes): ") a.info.size b1 λ b2.
        show_number (codes "Creation Time: ") a.info.creation_time b2 λ b3.
          show_number (codes "Modification Time ") a.info.modification_time b3
            λ b4. exit exit_success

-- A word that is missing is NULL, which `atoi` reads.
unfoldable pub kill_words : List (List ℕ) → Program
kill_words [] = fault
kill_words (pid ∷ []) = fault
kill_words (pid ∷ (signal ∷ words)) = ask (kills (atoi pid) (atoi signal)) λ a. exit exit_success

unfoldable pub kill : List ℕ → Program
kill args = kill_words (split space args)

unfoldable pub ps_words : List (List ℕ) → Program
ps_words [] = fault
ps_words (pid ∷ words) = ask (shows (atoi pid)) λ a. exit exit_success

unfoldable pub ps : List ℕ → Program
ps args =
    if length args == 0 then (ask (shows 0) λ a. exit exit_success) else ps_words (split space args)

abbrev pub ends_in_slash : List ℕ → Bool
ends_in_slash path = get_or path (length path - 1) 0 == slash

-- The path with a separator at its end.
abbrev pub closed_path : List ℕ → List ℕ
closed_path path = if ends_in_slash path then path else path ++ slash ∷ []

-- The end of `cd`, with a path that fits its array.
unfoldable pub enter : List ℕ → Program
enter path = ask (stats path) λ s.
    if is_error s.status
    then (ask (complain (codes "Failed to open "))
        λ a. ask (complain path) λ b. ask (complain (newline ∷ [])) λ c. exit exit_failure)
    else (if s.info.type == directory_type
        then (ask (change_dir path) λ c. exit exit_success)
        else fails (codes "This is not a directory"))

unfoldable pub cd : List ℕ → List ℕ → Program
cd cwd path =
    if same_name path (codes ".")
    then exit exit_success
    else (if length path == 0
        then (ask (change_dir (slash ∷ [])) λ c. exit exit_failure)
        else (with_path 1024 cwd path λ copy.
            if ltb (length (closed_path copy)) 1024 then enter (closed_path copy) else fault))
