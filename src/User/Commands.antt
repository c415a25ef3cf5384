-- ===== src/User/Commands.antt =====
-- question/user/lib/libc.c (paths and command lines) and question/user/console.c. A string is the
-- list of its characters before the closing 0, a buffer a list of its size; `none` is a write
-- behind the end of a buffer.
pub mod Laws
pub mod Parsing
use assembly_os.Prelude.{
  ℕ, zero, suc, ◌+◌, Bool, true, false, Option, none, some, List, [], ◌∷◌, ◌++◌, ◌==◌,
  if◌then◌else◌, ◌>>=◌, ltb, leb, length, drop, replicate, index_where, minus_one, is_error, codes,
}
use assembly_os.Fs.Paths.{split, slash}
use assembly_os.Fs.Directory.{same_name}
use assembly_os.User.Text.{c_string}
use assembly_os.User.Requests.{Request, fork, fork_wait}

abbrev pub space : ℕ
space = 32

abbrev pub newline : ℕ
newline = 10

unfoldable pub strcpy : List ℕ → List ℕ → Option (List ℕ)
strcpy buffer s =
    if ltb (length s) (length buffer) then some (s ++ 0 ∷ drop (length s + 1) buffer) else none

unfoldable pub memcpy : List ℕ → List ℕ → Option (List ℕ)
memcpy buffer s =
    if leb (length s) (length buffer) then some (s ++ drop (length s) buffer) else none

-- What is copied into `path`.
abbrev pub joined_path : List ℕ → List ℕ → List ℕ
joined_path working_dir [] = working_dir
joined_path working_dir (c ∷ cs) = if c == slash then c ∷ cs else working_dir ++ c ∷ cs

unfoldable pub path_from_args : List ℕ → List ℕ → List ℕ → Option (List ℕ)
path_from_args working_dir args path = strcpy path (joined_path working_dir args)

-- The status, and the buffers for the command and its arguments.
pub record Parsed : Type 0 where
  pub status : ℕ
  pub cmd : List ℕ
  pub args : List ℕ

-- The arguments are what stands behind the first `strlen(cmd) + 1` characters of the input.
unfoldable pub parse_args : List ℕ → List ℕ → List ℕ → Option (List ℕ)
parse_args input word args =
    if leb (length input) (length word + 1)
    then some args
    else memcpy args (drop (length word + 1) input)

unfoldable pub parse_words : List ℕ → List ℕ → List ℕ → List (List ℕ) → Option Parsed
parse_words input cmd args [] = some (record { status = minus_one; cmd = cmd; args = args })
parse_words input cmd args (word ∷ words) = do
  cmd' ← strcpy cmd word
  args' ← parse_args input word args
  some (record { status = 0; cmd = cmd'; args = args' })

-- The copy of the input has 1024 bytes.
unfoldable pub parse_cmd : List ℕ → List ℕ → List ℕ → Option Parsed
parse_cmd input cmd args =
    if ltb (length input) 1024 then parse_words input cmd args (split space input) else none

-- The characters up to the end of the line, at most `n`, and those that come later; `none` waits
-- for characters that never come.
unfoldable pub gets : ℕ → List ℕ → Option (List ℕ × List ℕ)
gets zero typed = some ([], typed)
gets (suc n) [] = none
gets (suc n) (c ∷ typed) =
    let rest = gets n typed in
    if c == newline then some ([], typed) else (do (line, later) ← rest; some (c ∷ line, later))

-- The names of the programs; a program is the index of its name.
abbrev pub progs : List (List ℕ)
progs =
    codes "P3"
    ∷ codes "P4"
    ∷ codes "P5"
    ∷ codes "DP"
    ∷ codes "test1"
    ∷ codes "cat"
    ∷ codes "vim"
    ∷ codes "vima"
    ∷ codes "wc"
    ∷ codes "echo"
    ∷ codes "cd"
    ∷ codes "kill"
    ∷ codes "ls"
    ∷ codes "ps"
    ∷ codes "stat"
    ∷ codes "rm"
    ∷ codes "rmdir"
    ∷ codes "mkdir"
    ∷ []

-- `none` is NULL.
unfoldable pub load : List ℕ → Option ℕ
load x = index_where (λ name. same_name name x) (length progs) progs

-- What the child gives to `exec`: a NULL program is `none`.
pub record Child : Type 0 where
  pub program : Option ℕ
  pub is_interactive : ℕ
  pub arguments : List ℕ

unfoldable pub child : List ℕ → List ℕ → ℕ → Option Child
child prog args wait = do
  p ← parse_cmd args prog (replicate 100 0)
  some (record {
    program = load (c_string p.cmd);
    is_interactive = wait;
    arguments = c_string p.args;
  })

-- The call that makes the child, what the child does, and whether the console waits for it.
pub record Spawn : Type 0 where
  pub call : Request
  pub becomes : Option Child
  pub waits : Bool

-- `prog` is what the child's buffer for the name holds before it is written.
unfoldable pub cmd_fork : List ℕ → List ℕ → ℕ → Spawn
cmd_fork prog args wait =
    let waiting = if wait == 0 then false else true in
    record {
      call = if waiting then fork else fork_wait;
      becomes = child prog args wait;
      waits = waiting;
    }

-- `shutdown` is the status -1, all else the status 0.
pub data Handled : Type 0 where
  spawned : Spawn → Handled
  shutdown unknown_command nothing_entered : Handled

unfoldable pub handle_loaded : List ℕ → List ℕ → Option ℕ → Handled
handle_loaded prog input none = unknown_command
handle_loaded prog input (some addr) = spawned (cmd_fork prog input 1)

unfoldable pub handle_cmd : List ℕ → List ℕ → List ℕ → List ℕ → Handled
handle_cmd prog input cmd args =
    if same_name cmd (codes "fork")
    then spawned (cmd_fork prog args 0)
    else (if same_name cmd (codes "shutdown")
        then shutdown
        else handle_loaded prog input (load cmd))

abbrev handle_parsed : List ℕ → List ℕ → Parsed → Handled
handle_parsed prog input p =
    if is_error p.status
    then nothing_entered
    else handle_cmd prog input (c_string p.cmd) (c_string p.args)

-- A round of the loop of `main_console` on an entered line.
unfoldable pub console_round : List ℕ → List ℕ → Option Handled
console_round prog input = do
  p ← parse_cmd input (replicate 100 0) (replicate 1024 0)
  some (handle_parsed prog input p)
