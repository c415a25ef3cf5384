-- ===== src/User/Programs.antt =====
-- question/user/bin: the programs that work on files and processes. A program is a tree: what it
-- asks of the system, and how it goes on with the answer.
pub mod Closing
pub mod Counting
pub mod Names
pub mod Runs
use assembly_os.Prelude.{
  ℕ, zero, suc, ◌+◌, ◌-◌, Bool, true, false, Option, none, some, List, [], ◌∷◌, ◌++◌, ◌==◌,
  if◌then◌else◌, length, ltb, get_or, take, drop, replicate, is_error, codes,
}
use assembly_os.Fs.Paths.{split, slash}
use assembly_os.Fs.Directory.{same_name}
use assembly_os.User.Text.{c_string, atoi, ss}
use assembly_os.User.Commands.{Parsed, space, newline, path_from_args, parse_cmd}

-- `file_stat_t` of libc.h.
pub record FileStat : Type 0 where
  pub type : ℕ
  pub size : ℕ
  pub creation_time : ℕ
  pub modification_time : ℕ

-- INODE_DIRECTORY, READ, WRITE and READ_WRITE of libc.h.
abbrev pub directory_type : ℕ
directory_type = 2

abbrev pub for_reading : ℕ
for_reading = 0

abbrev pub for_writing : ℕ
for_writing = 1

abbrev pub for_both : ℕ
for_both = 2

-- EXIT_SUCCESS and EXIT_FAILURE of libc.h.
abbrev pub exit_success : ℕ
exit_success = 0

abbrev pub exit_failure : ℕ
exit_failure = 1

-- A call of the library, with the strings that its pointers lead to. `put` and `complain` are
-- `puts` and `err`, `change_dir` is the assignment to CWD.
pub data Question : Type 0 where
  opens : (path : List ℕ) (flags : ℕ) → Question
  reads : (fd n : ℕ) → Question
  writes : (fd : ℕ) (text : List ℕ) → Question
  closes : (fd : ℕ) → Question
  lists stats removes removes_dir makes_dir : (path : List ℕ) → Question
  kills : (pid signal : ℕ) → Question
  shows : (pid : ℕ) → Question
  put complain change_dir : (text : List ℕ) → Question

-- The value that the call returns, and what it writes to the buffer or the structure that it is
-- given.
pub record Answer : Type 0 where
  pub status : ℕ
  pub bytes : List ℕ
  pub info : FileStat

-- `fault` is a write behind the end of a buffer, or a use of NULL.
pub data Program : Type 0 where
  exit : ℕ → Program
  fault : Program
  ask : Question → (Answer → Program) → Program

-- The messages end their line.
abbrev pub fails : List ℕ → Program
fails text = ask (complain (text ++ newline ∷ [])) (λ a. exit exit_failure)

-- `if (call < 0) { err(text); exit(EXIT_FAILURE); }`
unfoldable pub checked : Question → List ℕ → (Answer → Program) → Program
checked q text k = ask q (λ a. if is_error a.status then fails text else k a)

-- `if (call < 0) exit(EXIT_FAILURE);`
unfoldable pub tried : Question → (Answer → Program) → Program
tried q k = ask q (λ a. if is_error a.status then exit exit_failure else k a)

-- The rest of the program works with the string in a buffer, if it fits.
unfoldable pub on_buffer : Option (List ℕ) → (List ℕ → Program) → Program
on_buffer none k = fault
on_buffer (some buffer) k = k (c_string buffer)

-- The rest of the program works with the path in a buffer of the given size.
unfoldable pub with_path : ℕ → List ℕ → List ℕ → (List ℕ → Program) → Program
with_path size cwd args k = on_buffer (path_from_args cwd args (replicate size 0)) k

-- A buffer after `n` bytes at most are written to its front.
abbrev pub filled : List ℕ → List ℕ → List ℕ
filled bytes buffer = take (length buffer) bytes ++ drop (length bytes) buffer

-- `text` is what the buffer holds before the call of `read`.
unfoldable pub cat : List ℕ → List ℕ → List ℕ → Program
cat text cwd args = with_path 1024 cwd args λ path.
    checked (opens path for_reading) (codes "Failed to open file") λ f.
      checked (reads f.status 1024) (codes "Failed to read to file") λ r.
        checked (closes f.status) (codes "Failed to close file")
          λ c. ask (put (c_string (filled r.bytes text))) λ p. exit exit_success

-- The end of `wc`: the parts between line feeds are counted.
unfoldable pub print_count : Option (List ℕ × List ℕ) → Program
print_count none = fault
print_count (some (b, shown)) = ask (put (c_string b)) λ p. exit exit_success

unfoldable pub wc : List ℕ → List ℕ → List ℕ → Program
wc text cwd args = with_path 1024 cwd args λ path.
    checked (opens path for_reading) (codes "Failed to open file") λ f. ask (stats path) λ s.
      if s.status == 0
      then (checked (reads f.status s.info.size) (codes "Failed to write to file") λ r.
          checked (closes f.status) (codes "Failed to close file") λ c.
            print_count
              (ss (replicate 10 0) (length (split newline (c_string (filled r.bytes text))))))
      else fails (codes "Failed to get file info")

-- The text of the command line, or else what is typed.
unfoldable pub with_text : List ℕ → (List ℕ → Program) → Program
with_text [] k = ask (reads 0 1024) λ t. k (c_string (filled t.bytes (replicate 1024 0)))
with_text (c ∷ cs) k = k (c ∷ cs)

-- The command line in its two buffers, if it fits them.
unfoldable pub on_parsed : List ℕ → Option Parsed → (Parsed → Program) → Program
on_parsed usage none k = fault
on_parsed usage (some p) k = if is_error p.status then fails usage else k p

unfoldable pub parsed : List ℕ → List ℕ → (Parsed → Program) → Program
parsed usage args k = on_parsed usage (parse_cmd args (replicate 100 0) (replicate 1024 0)) k

unfoldable pub vim : List ℕ → List ℕ → Program
vim cwd args = parsed (codes "Incorrect args, vim <filename> <text>") args λ p.
    with_path 1024 cwd (c_string p.cmd) λ path.
      checked (opens path for_writing) (codes "Failed to open file") λ f.
        with_text (c_string p.args) λ text.
          checked (writes f.status (text ++ 0 ∷ [])) (codes "Failed to write to file")
            λ w. checked (closes f.status) (codes "Failed to close file") λ c. exit exit_success

-- `strcat(text_to_write, text_read)`, within the 1024 bytes of the array.
unfoldable pub appended : List ℕ → List ℕ → (List ℕ → Program) → Program
appended old new k = if ltb (length old + length new) 1024 then k (old ++ new) else fault

unfoldable pub vima : List ℕ → List ℕ → Program
vima cwd args = parsed (codes "Incorrect args, vima <filename> <text>") args λ p.
    with_path 1024 cwd (c_string p.cmd) λ path.
      checked (opens path for_both) (codes "Failed to open file") λ f.
        checked (reads f.status 1024) (codes "Failed to read to file") λ r.
          ask (put (c_string (filled r.bytes (replicate 1024 0)))) λ o.
            with_text (c_string p.args) λ new.
              appended (c_string (filled r.bytes (replicate 1024 0))) new λ text.
                checked (writes f.status (text ++ 0 ∷ [])) (codes "Failed to write to file") λ w.
                  checked (closes f.status) (codes "Failed to close file") λ c. exit exit_success
