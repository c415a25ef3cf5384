-- ===== src/Fs/Volume.antt =====
-- question/kernel/fs.c: the superblock in memory and the disk behind it, which the functions of
-- the file system share, and the two functions that move a block.
-- The disk is an interface that the driver of Disk fills (Fs/Volume/Driver). `none` is a wait
-- that never ends or an access outside an array.
pub mod Driver
pub mod Store
pub mod Laws
use assembly_os.Prelude.{
  ℕ, ◌+◌, ◌-◌, Bool, ◌&&◌, Option, none, some, List, ◌++◌, if◌then◌else◌, leb, take, length,
  is_error,
}
use assembly_os.Fs.State.{Superblock}

pub record BlockDevice (D : Type 0) : Type 0 where
  pub get_block_num : D → Option (ℕ × D)
  pub get_block_len : D → Option (ℕ × D)
  -- `write_block a x`: the status.
  pub write_block : ℕ → List ℕ → D → Option (ℕ × D)
  -- `read_block a n`: the status and the bytes that were put into the buffer.
  pub read_block : ℕ → ℕ → D → Option (ℕ × List ℕ × D)

-- What the functions run on: the disk, the value of `1 << n` for n of at least 32 (Fs/Bitmap), and
-- the bytes that a local variable of some size holds before it is assigned, which C leaves open.
pub record Platform (D : Type 0) : Type 0 where
  pub disk : BlockDevice D
  pub wide : ℕ → ℕ
  pub stack : ℕ → D → List ℕ

pub record Volume (D : Type 0) : Type 0 where
  pub superblock : Superblock
  pub device : D

-- An action on a state, which may fault.
abbrev pub Act : Type 0 → Type 0 → Type 0
Act S A = S → Option (A × S)

abbrev pub M : Type 0 → Type 0 → Type 0
M D A = Act (Volume D) A

abbrev pub pure : {S A : Type 0} → A → Act S A
pure a s = some (a, s)

infixl 5 ◌>>=◌ ◌>>◌
abbrev pub ◌>>=◌ : {S A B : Type 0} → Act S A → (A → Act S B) → Act S B
◌>>=◌ m f s = elim (m s) [ none ↦ none | some (a, s') ↦ f a s' ]

abbrev pub ◌>>◌ : {S B : Type 0} → Act S (Unit {0}) → Act S B → Act S B
m >> k = m >>= λ _. k

abbrev pub guard : {S : Type 0} → Bool → Act S (Unit {0})
guard ok s = if ok then some (tt, s) else none

abbrev pub fault : {S A : Type 0} → Act S A
fault s = none

-- The superblock that the pointer of the calls points to.
abbrev pub get : {D : Type 0} → M D Superblock
get v = some (v.superblock, v)

abbrev pub modify : {D : Type 0} → (Superblock → Superblock) → M D (Unit {0})
modify f v = some (tt, record v { superblock = f v.superblock })

-- A change of the superblock and a look at it, which may fault.
abbrev pub attempt : {D : Type 0} → (Superblock → Option Superblock) → M D (Unit {0})
attempt f v = elim (f v.superblock) [
  | none ↦ none
  | some s ↦ some (tt, record v { superblock = s })
]

abbrev pub look : {D A : Type 0} → (Superblock → Option A) → M D A
look f v = elim (f v.superblock) [ none ↦ none | some a ↦ some (a, v) ]

-- An operation of the disk.
abbrev pub on_device : {D A : Type 0} → (D → Option (A × D)) → M D A
on_device f v = elim (f v.device) [ none ↦ none | some (a, d) ↦ some (a, record v { device = d }) ]

-- The first `n` bytes of a local variable that was not assigned.
abbrev pub local : {D : Type 0} → Platform D → ℕ → M D (List ℕ)
local p n v = some (take n (p.stack n v.device), v)

-- MAX_BLOCK_LEN of fs.h.
abbrev pub max_block_len : ℕ
max_block_len = 1024

module _ {D : Type 0} (p : Platform D) where
  -- The first `n` bytes of `x`, and what the buffer holds behind them.
  unfoldable pub disk_write : ℕ → ℕ → List ℕ → ℕ → M D ℕ
  disk_write block_len a x n = do
    guard (leb n max_block_len && leb block_len max_block_len)
    rest ← local p (max_block_len - n)
    on_device (p.disk.write_block a (take block_len (take n x ++ rest)))

  -- The status and the `n` bytes that are copied, also after a failure.
  unfoldable pub disk_read : ℕ → ℕ → ℕ → M D (ℕ × List ℕ)
  disk_read block_len a n = do
    guard (leb n max_block_len && leb block_len max_block_len)
    buffer ← local p max_block_len
    (status, bytes) ← on_device (λ d. elim (p.disk.read_block a block_len d) [
      | none ↦ none
      | some (status, bytes, d') ↦ some ((status, bytes), d')
    ])
    pure (status, take n (bytes ++ buffer))
