-- ===== src/Disk.antt =====
-- question/device/disk.c: the driver of the disk behind a serial port.
-- `none` is a wait that never ends.
pub mod Laws
use assembly_os.Prelude.{
  ℕ, zero, suc, ◌+◌, ◌*◌, ◌/◌, ◌%◌, ◌^◌, Bool, true, Option, none, some, List, [], ◌∷◌,
  if◌then◌else◌, ◌==◌, bit_or, get_or, minus_one, ◌>>=◌,
}
use assembly_os.Serial.{Uart, putc, getc, puth, geth}

abbrev pub disk_retry : ℕ
disk_retry = 3

abbrev pub disk_success : ℕ
disk_success = 0

abbrev pub disk_failure : ℕ
disk_failure = minus_one

abbrev pub eol : ℕ
eol = 10

abbrev pub space : ℕ
space = 32

module _ {D : Type 0} (u : Uart D) where
  unfoldable pub addr_puth : D → ℕ → Option D
  addr_puth d x = do
    d1 ← puth u d (x % 256) true
    d2 ← puth u d1 (x / 2 ^ 8 % 256) true
    d3 ← puth u d2 (x / 2 ^ 16 % 256) true
    puth u d3 (x / 2 ^ 24 % 256) true

  unfoldable pub data_puth : D → List ℕ → Option D
  data_puth d [] = some d
  data_puth d (x ∷ xs) = do d1 ← puth u d x true; data_puth d1 xs

  unfoldable pub data_geth : ℕ → D → Option (List ℕ × D)
  data_geth zero d = some ([], d)
  data_geth (suc n) d = do
    first ← geth u d true
    rest ← data_geth n (first.1)
    some (first.0 ∷ rest.0, rest.1)

  -- One round of `disk_wr` up to the answer.
  unfoldable pub wr_send : D → ℕ → List ℕ → Option D
  wr_send d a x = do
    d1 ← puth u d 0x01 true
    d2 ← putc u d1 space true
    d3 ← addr_puth d2 a
    d4 ← putc u d3 space true
    d5 ← data_puth d4 x
    putc u d5 eol true

  wr_rounds : ℕ → D → ℕ → List ℕ → Option (ℕ × D)
  wr_rounds zero d a x = some (disk_failure, d)
  wr_rounds (suc n) d a x = do
    sent ← wr_send d a x
    answer ← geth u sent true
    line ← getc u (answer.1) true
    if answer.0 == 0 then some (disk_success, line.1) else wr_rounds n (line.1) a x

  unfoldable pub disk_wr : D → ℕ → List ℕ → Option (ℕ × D)
  unfolding wr_rounds
  disk_wr d a x = wr_rounds disk_retry d a x

  unfoldable pub rd_send : D → ℕ → Option D
  rd_send d a = do
    d1 ← puth u d 0x02 true
    d2 ← putc u d1 space true
    d3 ← addr_puth d2 a
    putc u d3 eol true

  -- What follows a status: a separator, the data and the end of the line, or that end alone.
  unfoldable pub rd_data : ℕ → D → Option (List ℕ × D)
  rd_data n d = do
    separator ← getc u d true
    bytes ← data_geth n (separator.1)
    line ← getc u (bytes.1) true
    some (bytes.0, line.1)

  -- The status, the bytes read (none on a failure) and the port.
  rd_rounds : ℕ → D → ℕ → ℕ → Option (ℕ × List ℕ × D)
  rd_rounds zero d a n = some (disk_failure, [], d)
  rd_rounds (suc m) d a n = do
    sent ← rd_send d a
    answer ← geth u sent true
    (if answer.0 == 0
        then (do bytes ← rd_data n (answer.1); some (disk_success, bytes.0, bytes.1))
        else (do line ← getc u (answer.1) true; rd_rounds m (line.1) a n))

  unfoldable pub disk_rd : D → ℕ → ℕ → Option (ℕ × List ℕ × D)
  unfolding rd_rounds
  disk_rd d a n = rd_rounds disk_retry d a n

  -- Four bytes, the lowest first.
  abbrev pub word_at : List ℕ → ℕ → ℕ
  word_at x i =
      bit_or
        (bit_or (bit_or (get_or x i 0) (get_or x (i + 1) 0 * 2 ^ 8)) (get_or x (i + 2) 0 * 2 ^ 16))
        (get_or x (i + 3) 0 * 2 ^ 24)

  -- The loop of `disk_get_block_num` (offset 0) and `disk_get_block_len` (offset 4).
  conf_rounds : ℕ → D → ℕ → Option (ℕ × D)
  conf_rounds zero d i = some (disk_failure, d)
  conf_rounds (suc m) d i = do
    d1 ← puth u d 0x00 true
    sent ← putc u d1 eol true
    answer ← geth u sent true
    (if answer.0 == 0
        then (do bytes ← rd_data 8 (answer.1); some (word_at (bytes.0) i, bytes.1))
        else (do line ← getc u (answer.1) true; conf_rounds m (line.1) i))

  unfoldable pub disk_get_block_num : D → Option (ℕ × D)
  unfolding conf_rounds
  disk_get_block_num d = conf_rounds disk_retry d 0

  unfoldable pub disk_get_block_len : D → Option (ℕ × D)
  unfolding conf_rounds
  disk_get_block_len d = conf_rounds disk_retry d 4
