-- ===== src/Fs/Volume/Store.antt =====
-- A disk that stores: what the functions of fs.c rely on of the disk behind the driver.
use assembly_os.Prelude.{
  ℕ, ◌-◌, ◌≤◌, ◌<◌, ◌≡◌, ◌≢◌, refl, ap, ◌∙◌, arith, true, Option, none, some, List, ◌++◌, ◌==◌,
  if◌then◌else◌, ◌&&◌, leb, take, length, length-append, length-take, take-take, take-append,
  take-append_le,
}
use assembly_os.Fs.Volume.{Platform, Volume, pure, disk_write, disk_read, on_device}
use assembly_os.Fs.Volume.Laws.{bind-eq, on_device-eq}

-- The disk has `capacity` blocks of `len` bytes. A write succeeds and replaces one block, a read
-- succeeds and gives the block, and a local variable has the bytes of its size.
pub record IsStore {D : Type 0} (p : Platform D) (len : ℕ) (capacity : ℕ) : Type 0 where
  pub content : D → ℕ → List ℕ
  pub content_size : (d : D) (a : ℕ) → a < capacity → length (content d a) ≡ len
  pub stack_size : (n : ℕ) (d : D) → length (p.stack n d) ≡ n
  pub write_stores :
      (d : D) (a : ℕ) (x : List ℕ)
      → a < capacity
      → length x ≡ len
      → (d' : D) × (p.disk.write_block a x d ≡ some (0, d'))
        × ((b : ℕ) → content d' b ≡ (if b == a then x else content d b))
  pub read_gives :
      (d : D) (a : ℕ)
      → a < capacity
      → (d' : D) × (p.disk.read_block a len d ≡ some (0, content d a, d'))
        × ((b : ℕ) → content d' b ≡ content d b)

module _ {D : Type 0} {p : Platform D} {len capacity : ℕ} (store : IsStore p len capacity) where
  abbrev pub block : Volume D → ℕ → List ℕ
  block v a = store.content v.device a

  -- What a write of the first `n` bytes of `x` into the block `a` does.
  pub record Written (v w : Volume D) (a n : ℕ) (x : List ℕ) : Type 0 where
    pub same_superblock : w.superblock ≡ v.superblock
    pub written : take n (block w a) ≡ take n x
    pub others : (b : ℕ) → b ≢ a → block w b ≡ block v b

  pub disk_write-stores :
      (v : Volume D) (a n : ℕ) (x : List ℕ)
      → a < capacity
      → len ≤ 1024
      → n ≤ len
      → n ≤ length x
      → (w : Volume D) × (disk_write p len a x n v ≡ some (0, w)) × Written v w a n x
  unfolding disk_write
  disk_write-stores v a n x inside small fits long =
      let rest = take (1024 - n) (p.stack (1024 - n) v.device) in
      let guarded : (leb n 1024 && leb len 1024) ≡ true = ground arith in
      let front : length (take n x) ≡ n = length-take n x long in
      let back : length rest ≡ 1024 - n =
        length-take (1024 - n) (p.stack (1024 - n) v.device)
          (omega (arith, store.stack_size (1024 - n) v.device)) in
      let size : length (take len (take n x ++ rest)) ≡ len =
        length-take len (take n x ++ rest)
          (omega (arith, length-append (take n x) rest, front, back)) in
      let (d, e, at) = store.write_stores v.device a (take len (take n x ++ rest)) inside size in
      (
        record v { device = d },
        rw guarded (on_device-eq (p.disk.write_block a (take len (take n x ++ rest))) v 0 d e),
        record {
          same_superblock = refl;
          written =
              ap (take n) (at a ∙ ground arith)
              ∙ (take-take n len (take n x ++ rest) fits ∙ take-append n (take n x) rest front);
          others = λ b ne. at b ∙ ground (arith, ne);
        },
      )

  abbrev read_device_block : ℕ → D → Option ((ℕ × List ℕ) × D)
  read_device_block a d = elim (p.disk.read_block a len d) [
    | none ↦ none
    | some (status, bytes, d') ↦ some ((status, bytes), d')
  ]

  pub disk_read-gives :
      (v : Volume D) (a n : ℕ)
      → a < capacity
      → len ≤ 1024
      → n ≤ len
      → (w : Volume D) × (disk_read p len a n v ≡ some ((0, take n (block v a)), w))
        × (w.superblock ≡ v.superblock)
        × ((b : ℕ) → block w b ≡ block v b)
  unfolding disk_read
  disk_read-gives v a n inside small fits =
      let guarded : (leb n 1024 && leb len 1024) ≡ true = ground arith in
      let (d, e, at) = store.read_gives v.device a inside in
      (
        record v { device = d },
        rw guarded (
            bind-eq (on_device (read_device_block a))
              (λ r. pure (r.0, take n (r.1 ++ take 1024 (p.stack 1024 v.device)))) v
              (some ((0, block v a), record v { device = d }))
              (on_device-eq (read_device_block a) v (0, block v a) d
                (rw (read_device_block, e) refl))
            ∙ ap (λ bs. some ((0, bs), record v { device = d }))
                (take-append_le n (block v a) (take 1024 (p.stack 1024 v.device))
                  (omega (arith, store.content_size v.device a inside)))),
        refl,
        at,
      )
