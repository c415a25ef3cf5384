-- ===== src/User/Programs/Closing.antt =====
-- question/user/bin: what the programs leave open when they exit, whatever the system answers.
use assembly_os.Prelude.{
  ℕ, suc, ◌≡◌, refl, ◌∙◌, ap, Bool, true, false, Option, none, some, List, [], ◌∷◌, ◌++◌, ◌==◌,
  if◌then◌else◌, is_error, replicate, codes,
}
use assembly_os.User.Text.{c_string}
use assembly_os.User.Commands.{path_from_args}
use assembly_os.User.Programs
use assembly_os.User.Programs.{
  Question, opens, reads, writes, closes, lists, stats, removes, removes_dir, makes_dir, kills,
  shows, put, complain, change_dir, Answer, Program, exit, fault, ask, fails, checked, with_path,
  on_buffer, parsed, on_parsed, with_text, appended, print_count, exit_success, exit_failure,
  for_reading, for_writing, for_both,
}
use assembly_os.User.Programs.Runs.{
  track, finish, Closes, exit-Closes, fault-Closes, ask-Closes, fails-Closes, if-Closes,
  with_path-Closes, parsed-Closes, checked-Closes, with_text-Closes, opened-Closes, closed-Closes,
  appended-Closes,
}

cat-Closes : (text cwd args : List ℕ) → Closes [] (Programs.cat text cwd args)
unfolding Programs.cat
cat-Closes text cwd args = with_path-Closes [] 1024 cwd args _ λ path.
    opened-Closes path for_reading _ _ λ f.
      checked-Closes (f.status ∷ []) (reads f.status 1024) _ _
        λ r e. closed-Closes f.status _ _ λ c. ask-Closes [] (put _) _ λ p. exit-Closes

print_count-Closes : (o : Option (List ℕ × List ℕ)) → Closes [] (print_count o)
unfolding print_count
print_count-Closes none = fault-Closes []
print_count-Closes (some (b, shown)) = ask-Closes [] (put (c_string b)) _ λ p. exit-Closes

wc-Closes : (text cwd args : List ℕ) → Closes [] (Programs.wc text cwd args)
unfolding Programs.wc
wc-Closes text cwd args = with_path-Closes [] 1024 cwd args _ λ path.
    opened-Closes path for_reading _ _ λ f. ask-Closes (f.status ∷ []) (stats path) _ λ s.
      if-Closes (f.status ∷ []) (s.status == 0) _ _
        (λ e.
          checked-Closes (f.status ∷ []) (reads f.status (s.info.size)) _ _
            λ r e. closed-Closes f.status _ _ λ c. print_count-Closes _)
        (λ e. fails-Closes (f.status ∷ []) (codes "Failed to get file info"))

-- The end that `vim` and `vima` have in common.
stored-Closes :
    (fd : ℕ) (text failed failed_close : List ℕ)
    → Closes (fd ∷ []) (
        checked
          (writes fd text)
          failed
          (λ w. checked (closes fd) failed_close (λ c. exit exit_success)))
stored-Closes fd text failed failed_close =
    checked-Closes (fd ∷ []) (writes fd text) failed _
      λ w e. closed-Closes fd failed_close _ λ c. exit-Closes

vim-Closes : (cwd args : List ℕ) → Closes [] (Programs.vim cwd args)
unfolding Programs.vim
vim-Closes cwd args = parsed-Closes [] _ args _ λ p.
    with_path-Closes [] 1024 cwd (c_string p.cmd) _ λ path. opened-Closes path for_writing _ _ λ f.
      with_text-Closes (f.status ∷ []) (c_string p.args) _
        λ text. stored-Closes f.status (text ++ 0 ∷ []) _ _

vima-Closes : (cwd args : List ℕ) → Closes [] (Programs.vima cwd args)
unfolding Programs.vima
vima-Closes cwd args = parsed-Closes [] _ args _ λ p.
    with_path-Closes [] 1024 cwd (c_string p.cmd) _ λ path. opened-Closes path for_both _ _ λ f.
      checked-Closes (f.status ∷ []) (reads f.status 1024) _ _ λ r e.
        ask-Closes (f.status ∷ []) (put _) _ λ o.
          with_text-Closes (f.status ∷ []) (c_string p.args) _ λ new.
            appended-Closes (f.status ∷ []) _ new _
              λ text. stored-Closes f.status (text ++ 0 ∷ []) _ _

-- The programs that open a file.
pub data Tool : Type 0 where
  cat wc vim vima : Tool

-- `text` is what the array for the file's bytes holds before.
abbrev pub run_tool : Tool → List ℕ → List ℕ → List ℕ → Program
run_tool Tool.cat text cwd args = Programs.cat text cwd args
run_tool Tool.wc text cwd args = Programs.wc text cwd args
run_tool Tool.vim text cwd args = Programs.vim cwd args
run_tool Tool.vima text cwd args = Programs.vima cwd args

tool-Closes : (tool : Tool) (text cwd args : List ℕ) → Closes [] (run_tool tool text cwd args)
tool-Closes Tool.cat text cwd args = cat-Closes text cwd args
tool-Closes Tool.wc text cwd args = wc-Closes text cwd args
tool-Closes Tool.vim text cwd args = vim-Closes cwd args
tool-Closes Tool.vima text cwd args = vima-Closes cwd args

-- Whatever the system answers to the calls of `cat`, `wc`, `vim` or `vima`: a run that begins with
-- nothing open and exits with success has closed every descriptor that it opened.
pub finish-closed :
    (tool : Tool) (text cwd args : List ℕ) (answers : ℕ → Answer) (left : List ℕ)
    → finish (run_tool tool text cwd args) answers 0 [] ≡ some (left, exit_success)
    → left ≡ []
unfolding Closes
finish-closed tool text cwd args answers left e = tool-Closes tool text cwd args answers 0 left e

finish-on_buffer :
    (buffer : List ℕ) (k : List ℕ → Program) (answers : ℕ → Answer)
    → finish (on_buffer (some buffer) k) answers 0 [] ≡ finish (k (c_string buffer)) answers 0 []
unfolding on_buffer
finish-on_buffer buffer k answers = refl

module _ (answers : ℕ → Answer) (n : ℕ) (open_fds : List ℕ) (q : Question) (text : List ℕ)
    (k : Answer → Program) where
  finish-checked :
      is_error (answers n).status ≡ false
      → finish (checked q text k) answers n open_fds
        ≡ finish (k (answers n)) answers (suc n) (track q (answers n) open_fds)
  unfolding checked finish
  finish-checked e =
      ap
        (λ (b : Bool).
          finish (if b then fails text else k (answers n)) answers (suc n)
            (track q (answers n) open_fds))
        e

  finish-refused :
      is_error (answers n).status ≡ true
      → finish (checked q text k) answers n open_fds
        ≡ some (track q (answers n) open_fds, exit_failure)
  unfolding checked finish
  finish-refused e =
      ap
        (λ (b : Bool).
          finish (if b then fails text else k (answers n)) answers (suc n)
            (track q (answers n) open_fds))
        e

-- The path of `cat` fits its array, the file is opened, and the read fails: `cat` exits with a
-- failure, and the descriptor that the opening returned is still open.
pub cat_leaves_open :
    (text cwd args buffer : List ℕ) (answers : ℕ → Answer)
    → path_from_args cwd args (replicate 1024 0) ≡ some buffer
    → is_error (answers 0).status ≡ false
    → is_error (answers 1).status ≡ true
    → finish (Programs.cat text cwd args) answers 0 []
      ≡ some ((answers 0).status ∷ [], exit_failure)
unfolding Programs.cat with_path
cat_leaves_open text cwd args buffer answers fits opened failed =
    ap (λ o. finish (on_buffer o after) answers 0 []) fits
    ∙ finish-on_buffer buffer after answers
    ∙ finish-checked answers 0 [] (opens (c_string buffer) for_reading) _ _ opened
    ∙ finish-refused answers 1 _ (reads (answers 0).status 1024) _ _ failed
    ∙ ap (λ (b : Bool). some (if b then [] else (answers 0).status ∷ [], exit_failure)) opened
  where
    after : List ℕ → Program
    after path = checked (opens path for_reading) (codes "Failed to open file") λ f.
        checked (reads f.status 1024) (codes "Failed to read to file") λ r.
          checked (closes f.status) (codes "Failed to close file")
            λ c. ask (put (c_string (Programs.filled r.bytes text))) λ p. exit exit_success
