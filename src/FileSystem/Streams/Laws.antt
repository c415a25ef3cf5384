-- ===== src/FileSystem/Streams/Laws.antt =====
-- Reads and writes: what is refused, and what goes over the serial ports.
use assembly_os.Prelude.{
  ℕ, zero, suc, ◌<◌, ◌≡◌, ◌≢◌, refl, arith, true, false, some, List, [], ◌∷◌, ◌==◌, minus_one,
  is_error,
}
use assembly_os.Prelude.{codes}
use assembly_os.Utilities.{error}
use assembly_os.Process.State.{Kernel, running}
use assembly_os.Fs.State.{read, write}
use assembly_os.Fs.Descriptors.{process_has_file_permission}
use assembly_os.Serial.{Uart}
use assembly_os.Serial.Laws.{Takes, Gives}
use assembly_os.Fs.Volume.{◌>>=◌, ◌>>◌, pure}
use assembly_os.Fs.Volume.Laws.{bind-eq}
use assembly_os.FileSystem.{
  System, Machine, on_uart0, on_uart1, sent, report, failed, bytes_from, put_bytes, store_bytes,
}
use assembly_os.FileSystem.Streams.{
  put, put_all, get_all, signed_rounds, write_device, read_device, sys_write, sys_read,
}

-- What a write of some characters to a device does: the files and the status, given the number of
-- the characters.
pub data Output {D U : Type 0} (u : Uart U) (f : System D U) (fd : ℕ) (cs : List ℕ) (n : ℕ)
    : System D U → ℕ → Type 0 where
  to_stdout :
      {u0 : U}
      → fd ≡ f.stdout_fd
      → Takes u f.uart0 cs u0
      → Output u f fd cs n (record f { uart0 = u0 }) n
  to_stderr :
      {u1 : U}
      → fd ≢ f.stdout_fd
      → fd ≡ f.stderr_fd
      → Takes u f.uart1 cs u1
      → Output u f fd cs n (record f { uart1 = u1 }) n
  to_unknown :
      {u1 : U}
      → fd ≢ f.stdout_fd
      → fd ≢ f.stderr_fd
      → Takes u f.uart1 (codes "Unknown device\n") u1
      → Output u f fd cs n (record f { uart1 = u1 }) minus_one

-- The characters that a read of at most `n` takes: it ends behind the first escape.
pub data Typed : ℕ → List ℕ → Type 0 where
  full : Typed 0 []
  escape : {n c : ℕ} → c ≡ 27 → Typed (suc n) (c ∷ [])
  char : {n c : ℕ} {cs : List ℕ} → c ≢ 27 → Typed n cs → Typed (suc n) (c ∷ cs)

module _ {D U : Type 0} (m : Machine D U) where
  -- Where the running process lacks the permission on a descriptor, a write and a read report that
  -- the file is not open and return -1, and change nothing else.
  pub file_refused :
      (k : Kernel) (f : System D U) (fd x n : ℕ)
      → is_error (process_has_file_permission k f.open_files (running k).pid fd write) ≡ true
      → is_error (process_has_file_permission k f.open_files (running k).pid fd read) ≡ true
      → (sys_write m fd x n (k, f) ≡ failed m (codes "File not open\n") (k, f))
        × (sys_read m fd x n (k, f) ≡ failed m (codes "File not open\n") (k, f))
  unfolding sys_write sys_read
  file_refused k f fd x n h g = (rw h refl, rw g refl)

  put_all-Takes : (cs : List ℕ) {u u' : U} → Takes m.serial u cs u' → put_all m cs u ≡ some u'
  unfolding put_all
  put_all-Takes [] Takes.done = refl
  put_all-Takes (c ∷ cs) {u} {u'} (Takes.next {e = e} p t) = rw (put_all, p) (put_all-Takes cs t)

  sent0 :
      (k : Kernel) (f : System D U) (n : ℕ) (cs : List ℕ) {u : U}
      → Takes m.serial f.uart0 cs u
      → (do on_uart0 (put m cs); pure n) (k, f) ≡ some (n, (k, record f { uart0 = u }))
  sent0 k f n cs {u} t =
      bind-eq (on_uart0 (put m cs)) (λ _. pure n) (k, f) (some (tt, (k, record f { uart0 = u })))
        (rw (on_uart0, put, put_all-Takes cs t) refl)

  sent1 :
      (k : Kernel) (f : System D U) (n : ℕ) (cs : List ℕ) {u : U}
      → Takes m.serial f.uart1 cs u
      → (do on_uart1 (put m cs); pure n) (k, f) ≡ some (n, (k, record f { uart1 = u }))
  sent1 k f n cs {u} t =
      bind-eq (on_uart1 (put m cs)) (λ _. pure n) (k, f) (some (tt, (k, record f { uart1 = u })))
        (rw (on_uart1, put, put_all-Takes cs t) refl)

  error-Takes : (cs : List ℕ) {u u' : U} → Takes m.serial u cs u' → error m.serial u cs ≡ some u'
  unfolding error
  error-Takes [] Takes.done = refl
  error-Takes (c ∷ cs) {u} {u'} (Takes.next {e = e} p t) = rw (error, p) (error-Takes cs t)

  -- A refusal that the second port takes the message of.
  refused_with :
      (k : Kernel) (f : System D U) (cs : List ℕ) {u : U}
      → Takes m.serial f.uart1 cs u
      → failed m cs (k, f) ≡ some (minus_one, (k, record f { uart1 = u }))
  refused_with k f cs {u} t =
      bind-eq (report m cs) (λ _. pure minus_one) (k, f) (some (tt, (k, record f { uart1 = u })))
        (rw (report, on_uart1, sent, error-Takes cs t) refl)

  signed_rounds-small : (n : ℕ) → n < 2147483648 → signed_rounds n ≡ n
  signed_rounds-small n h = ground arith

  -- A write of `n` bytes, a number that is not negative, to the descriptor of the standard output
  -- sends exactly these bytes of the user's memory, in order, over the first serial port, and one to
  -- the standard error over the second, if the port takes them; it returns `n` and changes nothing
  -- else. For any other descriptor it sends the message "Unknown device", with the end of the line,
  -- over the second port, if that takes it, returns -1 and changes nothing else.
  pub write_device-Output :
      (k : Kernel) (f g : System D U) (fd x n r : ℕ)
      → n < 2147483648
      → Output m.serial f fd (bytes_from n f.memory x) n g r
      → write_device m fd x n (k, f) ≡ some (r, (k, g))
  unfolding write_device
  write_device-Output k f g fd x n r h (Output.to_stdout e t) =
      let same : (fd == f.stdout_fd) ≡ true = ground arith in
      rw (signed_rounds-small n h, same) (sent0 k f n (bytes_from n f.memory x) t)
  write_device-Output k f g fd x n r h (Output.to_stderr e d t) =
      let other : (fd == f.stdout_fd) ≡ false = ground (arith, e) in
      let same : (fd == f.stderr_fd) ≡ true = ground arith in
      rw (signed_rounds-small n h, other, same) (sent1 k f n (bytes_from n f.memory x) t)
  write_device-Output k f g fd x n r h (Output.to_unknown e d t) =
      let other : (fd == f.stdout_fd) ≡ false = ground (arith, e) in
      let another : (fd == f.stderr_fd) ≡ false = ground (arith, d) in
      rw (other, another) (refused_with k f (codes "Unknown device\n") t)

  get_all-Typed :
      (n : ℕ) (cs : List ℕ) {u u' : U}
      → Typed n cs
      → Gives m.serial u cs u'
      → get_all m n u ≡ some (cs, u')
  unfolding get_all
  get_all-Typed zero [] Typed.full Gives.nothing = refl
  get_all-Typed zero (c ∷ cs) t g = elim t [ ]
  get_all-Typed (suc n) [] t g = elim t [ ]
  get_all-Typed (suc n) (c ∷ []) (Typed.escape e) (Gives.char p Gives.nothing) =
      let same : (c == 27) ≡ true = ground arith in rw (get_all, p, same) refl
  get_all-Typed (suc n) (c ∷ cs) (Typed.char h t) (Gives.char p g) =
      let other : (c == 27) ≡ false = ground (arith, h) in
      rw (get_all, p, other, get_all-Typed n cs t g) refl

  received :
      (k : Kernel) (f : System D U) (x n : ℕ) (cs : List ℕ) {u : U}
      → get_all m n f.uart1 ≡ some (cs, u)
      → (do cs ← on_uart1 (get_all m n); store_bytes x cs; pure n) (k, f)
        ≡ some (n, (k, record f { uart1 = u; memory = put_bytes cs x f.memory }))
  received k f x n cs {u} e =
      bind-eq (on_uart1 (get_all m n)) (λ cs. store_bytes x cs >> pure n) (k, f)
        (some (cs, (k, record f { uart1 = u }))) (rw (on_uart1, e) refl)

  -- A read of at most `n` bytes, a number that is not negative, from the standard input puts the
  -- characters that arrive on the second serial port at the address, up to and with the first escape,
  -- and always returns `n`. The rest of the user's memory, the kernel and the files stay as they are.
  pub read_device-Typed :
      (k : Kernel) (f : System D U) (x n : ℕ) (cs : List ℕ) (u : U)
      → n < 2147483648
      → Typed n cs
      → Gives m.serial f.uart1 cs u
      → read_device m f.stdin_fd x n (k, f)
        ≡ some (n, (k, record f { uart1 = u; memory = put_bytes cs x f.memory }))
  unfolding read_device
  read_device-Typed k f x n cs u h t g =
      let same : (f.stdin_fd == f.stdin_fd) ≡ true = ground arith in
      rw (signed_rounds-small n h, same) (received k f x n cs (get_all-Typed n cs t g))
