-- ===== src/User/Commands/Laws.antt =====
-- question/user/lib/libc.c and question/user/console.c: what a command line starts.
use assembly_os.Prelude.{
  ℕ, ◌+◌, ◌<◌, ◌≡◌, refl, ◌∙◌, ap, true, false, none, some, List, [], ◌∷◌, ◌++◌, arith, length,
  drop, replicate, index_where, codes, Bool-cases, none-ne-some, inl, inr, length-append,
}
use assembly_os.Fs.Directory.{same_name}
use assembly_os.Fs.Directory.Laws.{same_name→eq}
use assembly_os.User.Requests.{fork, fork_wait}
use assembly_os.User.Commands.{
  space, load, child, cmd_fork, spawned, handle_loaded, handle_cmd, console_round,
}
use assembly_os.User.Commands.Parsing.{
  IsText, IsWord, c_string-text, c_string-zeros, word-IsText, parse_cmd_lem,
}

-- A child that is asked for by a name and arguments becomes the program of that name.
child_lem :
    (c wait : ℕ) (w rest prog : List ℕ)
    → IsWord (c ∷ w)
    → IsText rest
    → length prog ≡ 100
    → length (c ∷ w) < 100
    → length rest < 100
    → child prog (c ∷ (w ++ space ∷ rest)) wait
      ≡ some (record { program = load (c ∷ w); is_interactive = wait; arguments = rest })
unfolding child
child_lem c wait w rest prog word text size short few =
    rw
      (
        parse_cmd_lem c w rest prog (replicate 100 0) word (omega arith) (omega arith)
            (omega arith),
        c_string-text (c ∷ w) (drop (length (c ∷ w) + 1) prog) (word-IsText (c ∷ w) word),
        c_string-zeros rest 100 text few,
      )
      refl

-- What `load` does not know has another name than what it knows.
load_apart :
    (x name : List ℕ) (i : ℕ) → load name ≡ none → load x ≡ some i → same_name x name ≡ false
load_apart x name i absent found = elim (Bool-cases (same_name x name)) [
  | inl same ↦ absurd (none-ne-some (ap load (same_name→eq x name same) ∙ absent) found)
  | inr other ↦ other
]

fork_absent : load (codes "fork") ≡ none
unfolding load index_where same_name
fork_absent = refl

shutdown_absent : load (codes "shutdown") ≡ none
unfolding load index_where same_name
shutdown_absent = refl

handle_cmd-program :
    (prog input cmd args : List ℕ) (i : ℕ)
    → load cmd ≡ some i
    → handle_cmd prog input cmd args ≡ spawned (cmd_fork prog input 1)
unfolding handle_cmd handle_loaded
handle_cmd-program prog input cmd args i found =
    rw
      (
        load_apart cmd (codes "fork") i fork_absent found,
        load_apart cmd (codes "shutdown") i shutdown_absent found,
        found,
      )
      refl

handle_cmd-fork :
    (prog input args : List ℕ)
    → handle_cmd prog input (codes "fork") args ≡ spawned (cmd_fork prog args 0)
unfolding handle_cmd same_name
handle_cmd-fork prog input args = refl

-- The console's round on a word and a rest.
console_round_lem :
    (c : ℕ) (w rest prog : List ℕ)
    → IsWord (c ∷ w)
    → IsText rest
    → length (c ∷ w) < 100
    → length rest < 900
    → console_round prog (c ∷ (w ++ space ∷ rest))
      ≡ some (handle_cmd prog (c ∷ (w ++ space ∷ rest)) (c ∷ w) rest)
unfolding console_round
console_round_lem c w rest prog word text short few =
    rw
      (
        parse_cmd_lem c w rest (replicate 100 0) (replicate 1024 0) word (omega arith) (omega arith)
            (omega arith),
        c_string-text (c ∷ w) (drop (length (c ∷ w) + 1) (replicate 100 0))
            (word-IsText (c ∷ w) word),
        c_string-zeros rest 1024 text (omega arith),
      )
      refl

IsText-append : (xs ys : List ℕ) → IsText xs → IsText ys → IsText (xs ++ ys)
IsText-append [] ys h k = k
IsText-append (x ∷ xs) ys h k = (h.0, IsText-append xs ys (h.1) k)

module _ (c : ℕ) (w rest prog : List ℕ) (word : IsWord (c ∷ w)) (text : IsText rest)
    (size : length prog ≡ 100) (short : length (c ∷ w) < 100) (few : length rest < 100) where
  console_foreground :
      (i : ℕ)
      → load (c ∷ w) ≡ some i
      → console_round prog (c ∷ (w ++ space ∷ rest))
        ≡ some (
            spawned (record {
              call = fork;
              becomes = some (record { program = some i; is_interactive = 1; arguments = rest });
              waits = true;
            }))
  unfolding cmd_fork
  console_foreground i found =
      console_round_lem c w rest prog word text short (omega arith)
      ∙ ap some (handle_cmd-program prog (c ∷ (w ++ space ∷ rest)) (c ∷ w) rest i found)
      ∙ rw (child_lem c 1 w rest prog word text size short few, found) refl

  console_background :
      console_round prog (codes "fork" ++ space ∷ (c ∷ (w ++ space ∷ rest)))
      ≡ some (
          spawned (record {
            call = fork_wait;
            becomes =
                some (record { program = load (c ∷ w); is_interactive = 0; arguments = rest });
            waits = false;
          }))
  unfolding cmd_fork
  console_background =
      console_round_lem b'f' (codes "ork") (c ∷ (w ++ space ∷ rest)) prog (omega arith)
        (IsText-append (c ∷ w) (space ∷ rest) (word-IsText (c ∷ w) word) (omega arith, text))
        (omega arith) (omega (arith, length-append w (space ∷ rest)))
      ∙ ap some (
          handle_cmd-fork prog (codes "fork" ++ space ∷ (c ∷ (w ++ space ∷ rest)))
            (c ∷ (w ++ space ∷ rest)))
      ∙ rw (child_lem c 0 w rest prog word text size short few) refl

-- A line holds the name of a program that the console knows, of characters other than space and 0,
-- then a space and a rest without 0; both are shorter than 100 characters, and the buffer for the
-- name in the child has 100. Entered as it is, the
-- line makes the console fork, become that program in the child, as an interactive process with the
-- rest as its arguments, and wait for it. With "fork " in front it makes the console call
-- `fork_wait`, with the same program and arguments in the child, as a background process, and not
-- wait.
pub console_round-program :
    (c : ℕ) (w rest prog : List ℕ) (i : ℕ)
    → IsWord (c ∷ w)
    → IsText rest
    → length prog ≡ 100
    → length (c ∷ w) < 100
    → length rest < 100
    → load (c ∷ w) ≡ some i
    → (console_round prog (c ∷ (w ++ space ∷ rest))
        ≡ some (
            spawned (record {
              call = fork;
              becomes = some (record { program = some i; is_interactive = 1; arguments = rest });
              waits = true;
            })))
      × (console_round prog (codes "fork" ++ space ∷ (c ∷ (w ++ space ∷ rest)))
          ≡ some (
              spawned (record {
                call = fork_wait;
                becomes = some (record { program = some i; is_interactive = 0; arguments = rest });
                waits = false;
              })))
console_round-program c w rest prog i word text size short few found = (
  console_foreground c w rest prog word text size short few i found,
  console_background c w rest prog word text size short few ∙ rw found refl,
)
