-- ===== src/Fs/Directory/Laws.antt =====
-- What a lookup returns, and what it returns after a deletion.
use assembly_os.Prelude.{
  ℕ, ◌+◌, ◌-◌, ◌≤◌, ◌<◌, ◌≡◌, ◌≢◌, arith, true, List, [], ◌∷◌, length, some, none, Option-cases,
  inl, inr, minus_one, refl, ap, sym, ◌∙◌, index_where-found, index_where-none, index_where-only,
  index_where-nothing, delete, origin, origin-injective, delete-origin, delete-stays, length-delete,
}
use mathlib.Core.Bool.{false≢true}
use assembly_os.Fs.State.{FileLink, Directory}
use assembly_os.Fs.Directory.{
  same_name, no_link, link, link_index, delete_at, delete_file_link, inode_at, directory_lookup,
}

pub same_name→eq : (xs ys : List ℕ) → same_name xs ys ≡ true → xs ≡ ys
unfolding same_name
same_name→eq [] [] e = refl
same_name→eq [] (y ∷ ys) e = absurd (ground arith)
same_name→eq (x ∷ xs) [] e = absurd (ground arith)
same_name→eq (x ∷ xs) (y ∷ ys) e = ground (arith, same_name→eq xs ys)

pub same_name_refl : (xs : List ℕ) → same_name xs xs ≡ true
unfolding same_name
same_name_refl [] = refl
same_name_refl (x ∷ xs) = ground (arith, same_name_refl xs)

-- The links fit the array, and no two of them have the same name.
pub record DirectoryIsValid (dir : Directory) : Type 0 where
  pub size : length dir.links ≡ 10
  pub fits : dir.files_count ≤ 10
  pub distinct :
      (i j : ℕ)
      → i < dir.files_count
      → j < dir.files_count
      → (link dir i).filename ≡ (link dir j).filename
      → i ≡ j

link_index-found :
    (dir : Directory) (name : List ℕ) (i : ℕ)
    → link_index dir name ≡ some i
    → (i < dir.files_count) × (name ≡ (link dir i).filename)
unfolding link_index
link_index-found dir name i e =
    let (a, b, c) =
      index_where-found (λ (l : FileLink). same_name name l.filename) dir.files_count dir.links i
        no_link e in
    (a, same_name→eq name (link dir i).filename c)

link_index-only :
    (dir : Directory) (name : List ℕ) (i : ℕ)
    → i < dir.files_count
    → dir.files_count ≤ length dir.links
    → (link dir i).filename ≡ name
    → ((j : ℕ) → j < dir.files_count → (link dir j).filename ≡ name → j ≡ i)
    → link_index dir name ≡ some i
unfolding link_index
link_index-only dir name i h l e only =
    index_where-only (λ (l : FileLink). same_name name l.filename) dir.files_count dir.links i
      no_link h (omega arith) (ap (same_name name) e ∙ same_name_refl name)
      (λ j a b c. only j a (sym (same_name→eq name (link dir j).filename c)))

link_index-nothing :
    (dir : Directory) (name : List ℕ)
    → ((j : ℕ) → j < dir.files_count → (link dir j).filename ≢ name)
    → link_index dir name ≡ none
unfolding link_index
link_index-nothing dir name h =
    index_where-nothing (λ (l : FileLink). same_name name l.filename) dir.files_count dir.links
      no_link (λ j a b c. h j a (sym (same_name→eq name (link dir j).filename c)))

-- The directory after the link at `i` is deleted.
abbrev delete_link : Directory → ℕ → Directory
delete_link dir i = record {
  files_count = dir.files_count - 1;
  links = delete dir.links i dir.files_count;
}

module _ (dir : Directory) (i : ℕ) (v : DirectoryIsValid dir) (h : i < dir.files_count) where
  inside : dir.files_count ≤ length dir.links
  inside = omega (arith, v.size, v.fits)

  moved :
      (j : ℕ)
      → j + 1 < dir.files_count
      → (origin i j < dir.files_count)
        × (origin i j ≢ i)
        × (link (delete_link dir i) j ≡ link dir (origin i j))
  moved = delete-origin dir.links i dir.files_count no_link h inside

  delete_link-IsValid : DirectoryIsValid (delete_link dir i)
  delete_link-IsValid = record {
    size = length-delete dir.links i dir.files_count no_link h inside ∙ v.size;
    fits = omega (arith, v.fits);
    distinct = λ j m l k e.
        let (a, b, c) = moved j (omega arith) in
        let (a', b', c') = moved m (omega arith) in
        origin-injective i j m (
          v.distinct (origin i j) (origin i m) a a'
            (ap (λ (d : FileLink). d.filename) (sym c) ∙ e ∙ ap (λ (d : FileLink). d.filename) c'));
  }

  gone : link_index (delete_link dir i) (link dir i).filename ≡ none
  gone = link_index-nothing (delete_link dir i) (link dir i).filename (λ j l e.
      let (a, b, c) = moved j (omega arith) in
      b (v.distinct (origin i j) i a h (ap (λ (d : FileLink). d.filename) (sym c) ∙ e)))

  stays :
      (name : List ℕ) (j : ℕ)
      → name ≢ (link dir i).filename
      → link_index dir name ≡ some j
      → (m : ℕ) × (link_index (delete_link dir i) name ≡ some m)
        × (link (delete_link dir i) m ≡ link dir j)
  stays name j ne e =
      let (below, named) = link_index-found dir name j e in
      let (m, l, o) =
        delete-stays dir.links i dir.files_count no_link h inside j below
          (λ z. ne (named ∙ ap (λ x. (link dir x).filename) z)) in
      let (a, b, c) = moved m l in
      let same = c ∙ ap (link dir) o in
      (
        m,
        link_index-only (delete_link dir i) name m (omega arith)
            (omega (arith, length-delete dir.links i dir.files_count no_link h inside, inside))
            (ap (λ (d : FileLink). d.filename) same ∙ sym named)
            (λ j' l' e'.
              let (a', b', c') = moved j' (omega arith) in
              origin-injective i j' m (
                v.distinct (origin i j') j a' below
                  (ap (λ (d : FileLink). d.filename) (sym c') ∙ e' ∙ named)
                ∙ sym o)),
        same,
      )

  stays_away :
      (name : List ℕ) → link_index dir name ≡ none → link_index (delete_link dir i) name ≡ none
  unfolding link_index
  stays_away name e = link_index-nothing (delete_link dir i) name (λ j l e'.
      let (a, b, c) = moved j (omega arith) in
      false≢true (
        sym (
          index_where-none (λ (d : FileLink). same_name name d.filename) dir.files_count dir.links
            (origin i j) no_link e a (omega (arith, inside)))
        ∙ ap (same_name name) (ap (λ (d : FileLink). d.filename) (sym c) ∙ e')
        ∙ same_name_refl name))

  other_lookup :
      (name : List ℕ)
      → name ≢ (link dir i).filename
      → directory_lookup (delete_link dir i) name ≡ directory_lookup dir name
  unfolding directory_lookup inode_at
  other_lookup name ne = elim (Option-cases (link_index dir name)) [
    | inl e ↦ rw (e, stays_away name e)
    | inr (j, e) ↦
        let (m, e', same) = stays name j ne e in rw (e, e') (ap (λ (d : FileLink). d.inode_id) same)
  ]

-- The deletion of a link that is in the directory succeeds: its name is not found any more, every
-- other name leads to the inode it led to before, or to none as before, and the directory stays
-- valid.
pub delete_file_link_lem :
    (dir : Directory) (name : List ℕ) (i : ℕ)
    → DirectoryIsValid dir
    → link_index dir name ≡ some i
    → let (dir', r) = delete_file_link dir name in
      (r ≡ 0)
      × (directory_lookup dir' name ≡ minus_one)
      × ((other : List ℕ) → other ≢ name → directory_lookup dir' other ≡ directory_lookup dir other)
      × DirectoryIsValid dir'
unfolding delete_file_link delete_at directory_lookup inode_at
delete_file_link_lem dir name i v e =
    let (h, named) = link_index-found dir name i e in
    rw e (
      refl,
      rw (ap (link_index (delete_link dir i)) named ∙ gone dir i v h) refl,
      λ other ne. other_lookup dir i v h other (λ z. ne (z ∙ sym named)),
      delete_link-IsValid dir i v h,
    )
