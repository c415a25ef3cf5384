-- ===== src/Utilities.antt =====
-- question/kernel/utilities.c: messages of the kernel. `sitoa` and `s` have the code of `itoa` and
-- `ss` of question/user/lib/libc.c, as User/Text models it.
use assembly_os.Prelude.{ℕ, true, Option, some, List, [], ◌∷◌, ◌>>=◌}
use assembly_os.Serial.{Uart, putc}
use assembly_os.User.Text.{itoa, ss}

-- Each character is sent when the port has room for it.
unfoldable pub error : {D : Type 0} → Uart D → D → List ℕ → Option D
error u d [] = some d
error u d (c ∷ msg) = do d' ← putc u d c true; error u d' msg

unfoldable pub sitoa : List ℕ → ℕ → Option (List ℕ)
sitoa r x = itoa r x

unfoldable pub s : List ℕ → ℕ → Option (List ℕ × List ℕ)
s b x = ss b x
