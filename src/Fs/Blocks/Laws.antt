-- ===== src/Fs/Blocks/Laws.antt =====
-- Data in a row of blocks of a disk that stores.
use native.Mathlib.Nat.{suc-mul}
use assembly_os.Prelude.{
  ℕ, zero, suc, ◌+◌, ◌-◌, ◌*◌, ◌≤◌, ◌<◌, ◌≡◌, inl, inr, refl, ap, ◌∙◌, sym, arith, Bool-cases, some,
  List, [], ◌++◌, if◌then◌else◌, ltb, slt, sub32, take, drop, drop-drop, append_assoc, append-nil,
  ltb→le,
}
use assembly_os.Fs.Volume.{Platform, Volume, disk_read}
use assembly_os.Fs.Volume.Laws.{bind-eq}
use assembly_os.Fs.Volume.Store.{IsStore, block, disk_read-gives}
use assembly_os.Fs.Blocks.{chunk, read_rounds}

-- The bytes of the next block, where some are left.
abbrev pub part : ℕ → ℕ → ℕ
part left len = if ltb left len then left else len

pub chunk-part :
    (left len : ℕ) → left < 2147483648 → len < 2147483648 → chunk left len ≡ part left len
chunk-part left len h g = ground arith

pub part-rest :
    (left len : ℕ) → left < 2147483648 → sub32 left (part left len) ≡ left - part left len
part-rest left len h = ground arith

pub part_le : (left len : ℕ) → (part left len ≤ left) × (part left len ≤ len)
part_le left len = ground arith

pub positive : (left : ℕ) → left < 2147483648 → slt 0 left ≡ ltb 0 left
positive left h = ground arith

-- What is read of the parts, and the rest of the buffer behind it.
joined_last :
    (bytes g buffer : List ℕ) (k left : ℕ)
    → k ≡ left
    → g ≡ []
    → bytes ++ drop k buffer ≡ bytes ++ g ++ drop left buffer
joined_last bytes g buffer k left e none_left =
    ap (λ l. bytes ++ drop l buffer) e
    ∙ ap (λ h. h ++ drop left buffer) (sym (ap (λ h. bytes ++ h) none_left ∙ append-nil bytes))

joined_more :
    (bytes g g' buffer : List ℕ) (k left : ℕ)
    → k ≤ left
    → g' ≡ g
    → bytes ++ (g' ++ drop (left - k) (drop k buffer)) ≡ bytes ++ g ++ drop left buffer
joined_more bytes g g' buffer k left h e =
    let all : k + (left - k) ≡ left = omega arith in
    sym (append_assoc bytes g' (drop (left - k) (drop k buffer)))
    ∙ (ap (λ r. bytes ++ g' ++ r) (drop-drop k (left - k) buffer ∙ ap (λ l. drop l buffer) all)
        ∙ ap (λ h. bytes ++ h ++ drop left buffer) e)

-- The bytes that are left fit the blocks that are left.
pub part-enough : (n left len : ℕ) → left ≤ suc n * len → left - part left len ≤ n * len
part-enough n left len h = elim (Bool-cases (ltb left len)) [
  | inl less ↦ rw less (omega arith)
  | inr more ↦ rw more (omega (arith, suc-mul n len))
]

module _ {D : Type 0} {p : Platform D} {len capacity : ℕ} (store : IsStore p len capacity) where
  -- The bytes that lie in `n` blocks from `addr` on, `left` at most.
  unfoldable pub gather : Volume D → ℕ → ℕ → ℕ → List ℕ
  gather v zero addr left = []
  gather v (suc n) addr left =
      take (part left len) (block store v addr) ++ gather v n (addr + 1) (left - part left len)

  pub gather-none : (v : Volume D) (n addr : ℕ) → gather v n addr 0 ≡ []
  unfolding gather
  gather-none v zero addr = refl
  gather-none v (suc n) addr =
      let nothing : part 0 len ≡ 0 = ground arith in rw nothing (gather-none v n (addr + 1))

  pub gather-same :
      (v w : Volume D) (n addr left : ℕ)
      → ((a : ℕ) → addr ≤ a → a < addr + n → block store w a ≡ block store v a)
      → gather w n addr left ≡ gather v n addr left
  unfolding gather
  gather-same v w zero addr left h = refl
  gather-same v w (suc n) addr left h =
      let here : block store w addr ≡ block store v addr = h addr (omega arith) (omega arith) in
      rw
        (
          here,
          gather-same v w n (addr + 1) (left - part left len)
              (λ a low high. h a (omega arith) (omega arith)),
        )
        refl

  pub read_rounds-gather :
      (n addr left : ℕ) (buffer : List ℕ) (v : Volume D)
      → len ≤ 1024
      → left < 2147483648
      → left ≤ n * len
      → addr + n ≤ capacity
      → (w : Volume D) × (read_rounds p n len addr buffer left v
          ≡ some ((0, gather v n addr left ++ drop left buffer), w))
        × (w.superblock ≡ v.superblock)
        × ((a : ℕ) → block store w a ≡ block store v a)
  unfolding read_rounds gather
  read_rounds-gather zero addr left buffer v small few enough inside =
      let none_left : left ≡ 0 = omega arith in (v, rw none_left refl, refl, (λ a. refl))
  read_rounds-gather (suc n) addr left buffer v small few enough inside =
      let k = part left len in
      let (fits, short) = part_le left len in
      let (v1, e, same, kept) = disk_read-gives store v addr k (omega arith) small short in
      elim (Bool-cases (ltb 0 (left - k))) [
        | inr last ↦ (
          v1,
          rw
              (
                chunk-part left len few (omega arith),
                part-rest left len few,
                positive (left - k) (omega arith),
                last,
              )
              (bind-eq (disk_read p len addr k) _ v _ e
                ∙ ap (λ r. some ((0, r), v1))
                    (joined_last (take k (block store v addr)) (gather v n (addr + 1) (left - k))
                      buffer k left (omega (arith, fits, ltb→le 0 (left - k) last))
                      (ap (gather v n (addr + 1)) (omega (arith, ltb→le 0 (left - k) last))
                        ∙ gather-none v n (addr + 1)))),
          same,
          kept,
        )
        | inl more ↦
            let (w, e', same', kept') =
              read_rounds-gather n (addr + 1) (left - k) (drop k buffer) v1 small (omega arith)
                (part-enough n left len enough) (omega arith) in
            (
              w,
              rw
                  (
                    chunk-part left len few (omega arith),
                    part-rest left len few,
                    positive (left - k) (omega arith),
                    more,
                  )
                  (bind-eq (disk_read p len addr k) _ v _ e
                    ∙ (bind-eq (read_rounds p n len (addr + 1) (drop k buffer) (left - k)) _ v1 _ e'
                        ∙ ap (λ r. some ((0, r), w))
                            (joined_more (take k (block store v addr))
                              (gather v n (addr + 1) (left - k)) (gather v1 n (addr + 1) (left - k))
                              buffer k left fits
                              (gather-same v v1 n (addr + 1) (left - k) (λ a low high. kept a))))),
              same' ∙ same,
              (λ a. kept' a ∙ kept a),
            )
      ]
