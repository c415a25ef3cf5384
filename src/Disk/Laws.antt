-- ===== src/Disk/Laws.antt =====
-- One exchange with the disk: the request that the driver writes and the answer that it reads.
use assembly_os.Prelude.{
  ℕ, suc, ◌/◌, ◌%◌, ◌^◌, ◌<◌, ◌≡◌, refl, arith, ◌∙◌, true, some, List, [], ◌∷◌, ◌++◌, length, ◌>>=◌,
}
use assembly_os.Serial.{Uart, itox, putc, getc, geth}
use assembly_os.Serial.Laws.{
  lower_digit, xtoi-lower_digit, Takes, Gives, split_Takes, split_Gives, puth-Takes, geth-Gives,
}
use assembly_os.Disk.{
  eol, space, addr_puth, data_puth, data_geth, wr_send, wr_rounds, disk_wr, rd_send, rd_data,
  rd_rounds, disk_rd, disk_success, disk_failure,
}

-- Bytes as the driver writes them, and as the disk does.
abbrev pub hex_bytes : List ℕ → List ℕ
hex_bytes [] = []
hex_bytes (b ∷ bs) = itox (b / 16 % 16) ∷ itox (b % 16) ∷ hex_bytes bs

abbrev pub lower_bytes : List ℕ → List ℕ
lower_bytes [] = []
lower_bytes (b ∷ bs) = lower_digit (b / 16) ∷ lower_digit (b % 16) ∷ lower_bytes bs

abbrev pub AllBytes : List ℕ → Type 0
AllBytes [] = Unit {0}
AllBytes (b ∷ bs) = (b < 256) × AllBytes bs

abbrev pub address_bytes : ℕ → List ℕ
address_bytes a = a % 256 ∷ a / 2 ^ 8 % 256 ∷ a / 2 ^ 16 % 256 ∷ a / 2 ^ 24 % 256 ∷ []

-- The lines of the protocol: a write, a read, and the two answers of the disk.
abbrev pub wr_request : ℕ → List ℕ → List ℕ
wr_request a x =
    hex_bytes (1 ∷ [])
    ++ (space ∷ hex_bytes (address_bytes a) ++ (space ∷ hex_bytes x ++ (eol ∷ [])))

abbrev pub rd_request : ℕ → List ℕ
rd_request a = hex_bytes (2 ∷ []) ++ (space ∷ hex_bytes (address_bytes a) ++ (eol ∷ []))

abbrev pub ack_okay : List ℕ
ack_okay = lower_bytes (0 ∷ []) ++ (eol ∷ [])

abbrev pub ack_fail : List ℕ
ack_fail = lower_bytes (1 ∷ []) ++ (eol ∷ [])

abbrev pub ack_data : List ℕ → List ℕ
ack_data x = lower_bytes (0 ∷ []) ++ (space ∷ lower_bytes x ++ (eol ∷ []))

module _ {D : Type 0} (u : Uart D) where
  data_puth-Takes : (x : List ℕ) {d e : D} → Takes u d (hex_bytes x) e → data_puth u d x ≡ some e
  unfolding data_puth
  data_puth-Takes [] Takes.done = refl
  data_puth-Takes (b ∷ bs) (Takes.next p (Takes.next q t)) =
      rw (puth-Takes u b (Takes.next p (Takes.next q Takes.done))) (data_puth-Takes bs t)

  -- Four bytes are written like any others.
  addr_puth-Takes :
      (a : ℕ) {d e : D} → Takes u d (hex_bytes (address_bytes a)) e → addr_puth u d a ≡ some e
  unfolding addr_puth
  addr_puth-Takes a
        (Takes.next p (
          Takes.next q (
            Takes.next r (
              Takes.next s
                (Takes.next v (Takes.next w (Takes.next y (Takes.next z Takes.done)))))))) =
      rw (
        puth-Takes u (a % 256) (Takes.next p (Takes.next q Takes.done)),
        puth-Takes u (a / 2 ^ 8 % 256) (Takes.next r (Takes.next s Takes.done)),
        puth-Takes u (a / 2 ^ 16 % 256) (Takes.next v (Takes.next w Takes.done)),
        puth-Takes u (a / 2 ^ 24 % 256) (Takes.next y (Takes.next z Takes.done)),
      )

  one_char : {d e : D} {c : ℕ} → Takes u d (c ∷ []) e → putc u d c true ≡ some e
  one_char (Takes.next p Takes.done) = p

  wr_send-Takes :
      (a : ℕ) (x : List ℕ) {d e : D} → Takes u d (wr_request a x) e → wr_send u d a x ≡ some e
  unfolding wr_send
  wr_send-Takes a x (Takes.next p (Takes.next q (Takes.next r t))) =
      let (d1, address, t1) = split_Takes u (hex_bytes (address_bytes a)) _ t in
      rw (puth-Takes u 1 (Takes.next p (Takes.next q Takes.done)), r, addr_puth-Takes a address)
        (rest t1)
    where
      rest :
          {d e : D}
          → Takes u d (space ∷ hex_bytes x ++ (eol ∷ [])) e
          → (putc u d space true >>= λ d4. data_puth u d4 x >>= λ d5. putc u d5 eol true) ≡ some e
      rest (Takes.next p t) =
          let (d1, bytes, t1) = split_Takes u (hex_bytes x) (eol ∷ []) t in
          rw (p, data_puth-Takes x bytes) (one_char t1)

  rd_send-Takes : (a : ℕ) {d e : D} → Takes u d (rd_request a) e → rd_send u d a ≡ some e
  unfolding rd_send
  rd_send-Takes a (Takes.next p (Takes.next q (Takes.next r t))) =
      let (d1, address, t1) = split_Takes u (hex_bytes (address_bytes a)) (eol ∷ []) t in
      rw (puth-Takes u 2 (Takes.next p (Takes.next q Takes.done)), r, addr_puth-Takes a address)
        (one_char t1)

  -- A byte as the disk writes it.
  geth-lower :
      (b : ℕ) {d e : D}
      → b < 256
      → Gives u d (lower_digit (b / 16) ∷ lower_digit (b % 16) ∷ []) e
      → geth u d true ≡ some (b, e)
  geth-lower b h t =
      geth-Gives u b (lower_digit (b / 16)) (lower_digit (b % 16)) h
        (xtoi-lower_digit (b / 16) (omega arith)) (xtoi-lower_digit (b % 16) (omega arith)) t

  data_geth-Gives :
      (x : List ℕ) {d e : D}
      → AllBytes x
      → Gives u d (lower_bytes x) e
      → data_geth u (length x) d ≡ some (x, e)
  unfolding data_geth
  data_geth-Gives [] h Gives.nothing = refl
  data_geth-Gives (b ∷ bs) (h, hs) (Gives.char p (Gives.char q t)) =
      rw (geth-lower b h (Gives.char p (Gives.char q Gives.nothing)), data_geth-Gives bs hs t)

  -- If the port takes the request to write a block and the disk acknowledges it, `disk_wr` returns
  -- success after this one round.
  pub disk_wr-acknowledged :
      (a : ℕ) (x : List ℕ) (d e f : D)
      → Takes u d (wr_request a x) e
      → Gives u e ack_okay f
      → disk_wr u d a x ≡ some (disk_success, f)
  unfolding disk_wr wr_rounds
  disk_wr-acknowledged a x d e f t (Gives.char p (Gives.char q (Gives.char r Gives.nothing))) = rw (
    wr_send-Takes a x t,
    geth-lower 0 (omega arith) (Gives.char p (Gives.char q Gives.nothing)),
    r,
  )

  -- If the port takes the request to read a block and the disk answers with its bytes, `disk_rd`
  -- returns success and these bytes, after this one round.
  pub disk_rd-answered :
      (a : ℕ) (x : List ℕ) (d e f : D)
      → AllBytes x
      → Takes u d (rd_request a) e
      → Gives u e (ack_data x) f
      → disk_rd u d a (length x) ≡ some (disk_success, x, f)
  unfolding disk_rd rd_rounds rd_data
  disk_rd-answered a x d e f h t (Gives.char p (Gives.char q (Gives.char r g))) =
      let (g1, bytes, end) = split_Gives u (lower_bytes x) (eol ∷ []) g in
      rw (
        rd_send-Takes a t,
        geth-lower 0 (omega arith) (Gives.char p (Gives.char q Gives.nothing)),
        r,
        data_geth-Gives x h bytes,
        one_given end,
      )
    where
      one_given : {d e : D} {c : ℕ} → Gives u d (c ∷ []) e → getc u d true ≡ some (c, e)
      one_given (Gives.char p Gives.nothing) = p

  -- One round of a write that the disk refuses.
  pub record Refused (a : ℕ) (x : List ℕ) (d f : D) : Type 0 where
    pub asked : D
    pub taken : Takes u d (wr_request a x) asked
    pub answer : Gives u asked ack_fail f

  wr_rounds-Refused :
      (n a : ℕ) (x : List ℕ) {d f : D}
      → Refused a x d f
      → wr_rounds u (suc n) d a x ≡ wr_rounds u n f a x
  unfolding wr_rounds
  wr_rounds-Refused n a x {d} {f} s = refused (s.taken) (s.answer)
    where
      refused :
          {e : D}
          → Takes u d (wr_request a x) e
          → Gives u e ack_fail f
          → wr_rounds u (suc n) d a x ≡ wr_rounds u n f a x
      refused t (Gives.char p (Gives.char q (Gives.char r Gives.nothing))) = rw (
        wr_send-Takes a x t,
        geth-lower 1 (omega arith) (Gives.char p (Gives.char q Gives.nothing)),
        r,
      )

  -- A write that the disk refuses three times returns a failure.
  pub disk_wr-Refused :
      (a : ℕ) (x : List ℕ) (d e f g : D)
      → Refused a x d e
      → Refused a x e f
      → Refused a x f g
      → disk_wr u d a x ≡ some (disk_failure, g)
  unfolding disk_wr wr_rounds
  disk_wr-Refused a x d e f g r s t =
      wr_rounds-Refused 2 a x r ∙ wr_rounds-Refused 1 a x s ∙ wr_rounds-Refused 0 a x t
