-- ===== src/Serial.antt =====
-- question/device/PL011.c: characters and bytes in hexadecimal over a serial port.
-- The port is a parameter. A busy wait gives the port as it is when the wait ends, or `none` if
-- it never does.
pub mod Laws
use assembly_os.Prelude.{
  ℕ, ◌+◌, ◌-◌, ◌*◌, ◌/◌, ◌%◌, Bool, Option, none, some, ◌&&◌, if◌then◌else◌, leb, bit_or, bit_and,
  ◌==◌, minus_one, ◌>>=◌,
}

pub record Uart (D : Type 0) : Type 0 where
  pub wait_putc : D → Option D
  pub wait_getc : D → Option D
  pub write_data : ℕ → D → D
  pub read_data : D → ℕ × D

-- The value of a digit, -1 for any other character.
unfoldable pub xtoi : ℕ → ℕ
xtoi x =
    if leb 48 x && leb x 57
    then x - 48
    else (if leb 97 x && leb x 102
        then 10 + (x - 97)
        else (if leb 65 x && leb x 70 then 10 + (x - 65) else minus_one))

-- The `char` -1 is the byte 255.
unfoldable pub itox : ℕ → ℕ
itox x = if leb x 9 then 48 + x else (if leb 10 x && leb x 15 then 65 + (x - 10) else 255)

-- The value of `geth` for two characters. Each digit's value is cut to a byte.
abbrev pub two_digits : ℕ → ℕ → ℕ
two_digits a b = bit_or (xtoi a * 16 % 256) (xtoi b % 256)

-- The tests of the flag register: the transmit queue is not full, the receive queue is not empty.
unfoldable pub can_putc : ℕ → Bool
can_putc flags = bit_and flags 0x20 == 0

unfoldable pub can_getc : ℕ → Bool
can_getc flags = bit_and flags 0x10 == 0

module _ {D : Type 0} (u : Uart D) where
  unfoldable pub putc : D → ℕ → Bool → Option D
  putc d x f = do ready ← (if f then u.wait_putc d else some d); some (u.write_data x ready)

  unfoldable pub getc : D → Bool → Option (ℕ × D)
  getc d f = do ready ← (if f then u.wait_getc d else some d); some (u.read_data ready)

  -- `x` is a byte.
  unfoldable pub puth : D → ℕ → Bool → Option D
  puth d x f = do d1 ← putc d (itox (x / 16 % 16)) f; putc d1 (itox (x % 16)) f

  unfoldable pub geth : D → Bool → Option (ℕ × D)
  geth d f = do high ← getc d f; low ← getc (high.1) f; some (two_digits (high.0) (low.0), low.1)
