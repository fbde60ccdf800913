-- ===== src/Files/Leads.antt =====
-- What `lookup` (kernel/fs.c) finds, told without its searches: which entry of a directory has a name, and
-- where the names of a path lead.
use moonix.Base.{
  ℕ, zero, suc, ◌+◌, ◌<◌, ◌≤◌, ◌≡◌, ◌≢◌, refl, ap, ◌∙◌, arith, true, false, Option, none, some,
  List, [], ◌∷◌, Returns, Returns-ok, ◌==◌, leb, length, inl, inr, same_or_not, Bool-cases,
}
use moonix.Files.{Image, Inode, InodeItem, type_dir, same_name, find_item, find_in, lookup}
use moonix.Files.Walk.{AreNames, join, walk, and_then, lookup-walk}

same_name-true : (s t : List ℕ) → same_name s t ≡ true → s ≡ t
unfolding same_name
same_name-true [] [] h = refl
same_name-true [] (d ∷ t) h = absurd (ground arith)
same_name-true (c ∷ s) [] h = absurd (ground arith)
same_name-true (c ∷ s) (d ∷ t) h =
    let head : c ≡ d = ground arith in
    let tail = same_name-true s t (ground arith) in rw (head, tail) refl

same_name_refl : (s : List ℕ) → same_name s s ≡ true
unfolding same_name
same_name_refl [] = refl
same_name_refl (c ∷ s) = ground (arith, same_name_refl s)

-- Which of the `n` entries from `lo` on is the first with the name.
pub data First (items : ℕ → InodeItem) (name : List ℕ) (lo n : ℕ) : Option ℕ → Type 0 where
  entry :
      {i : ℕ}
      → lo ≤ i
      → i < lo + n
      → (items i).filename ≡ name
      → ((j : ℕ) → lo ≤ j → j < i → (items j).filename ≢ name)
      → First items name lo n (some i)
  missing : ((j : ℕ) → lo ≤ j → j < lo + n → (items j).filename ≢ name) → First items name lo n none

First-later :
    (items : ℕ → InodeItem) (name : List ℕ) (lo n : ℕ) (found : Option ℕ)
    → (items lo).filename ≢ name
    → First items name (lo + 1) n found
    → First items name lo (suc n) found
First-later items name lo n _ other (entry {i} low high named before) =
    entry (omega arith) (omega arith) named (λ j p q. elim (same_or_not j lo) [
      | inl e ↦ rw e other
      | inr higher ↦ before j (omega arith) q
    ])
First-later items name lo n _ other (missing before) = missing (λ j p q. elim (same_or_not j lo) [
  | inl e ↦ rw e other
  | inr higher ↦ before j (omega arith) (omega arith)
])

find_item-First :
    (items : ℕ → InodeItem) (name : List ℕ) (n lo : ℕ)
    → First items name lo n (find_item items name n lo)
unfolding find_item
find_item-First items name zero lo = missing (λ j p q. absurd (omega arith))
find_item-First items name (suc n) lo = elim (Bool-cases (same_name ((items lo).filename) name)) [
  | inl yes' ↦
      rw yes' (
        entry (omega arith) (omega arith) (same_name-true _ _ yes') (λ j p q. absurd (omega arith)))
  | inr no' ↦ rw no' (
      First-later items name lo n (find_item items name n (lo + 1))
        (λ e.
          let same : same_name ((items lo).filename) name ≡ true =
            ap (λ x. same_name x name) e ∙ same_name_refl name in
          absurd (ground arith))
        (find_item-First items name n (lo + 1)))
]

-- Where the names lead from the inode at a block: down through directories, at each by the first entry
-- with the name; to nothing at a file, or where no entry has the name.
pub data Leads (image : Image) : ℕ → List (List ℕ) → Option ℕ → Type 0 where
  arrived : {b : ℕ} → Leads image b [] (some b)
  not_dir :
      {b : ℕ} {n : List ℕ} {ns : List (List ℕ)}
      → (image.inode b).kind ≢ type_dir
      → Leads image b (n ∷ ns) none
  no_entry :
      {b : ℕ} {n : List ℕ} {ns : List (List ℕ)}
      → First ((image.inode b).direct) n 0 ((image.inode b).blocks) none
      → Leads image b (n ∷ ns) none
  down :
      {b i : ℕ} {n : List ℕ} {ns : List (List ℕ)} {end : Option ℕ}
      → (image.inode b).kind ≡ type_dir
      → First ((image.inode b).direct) n 0 ((image.inode b).blocks) (some i)
      → Leads image (((image.inode b).direct i).block) ns end
      → Leads image b (n ∷ ns) end

-- Directories whose entries are all in their inode.
abbrev pub AreSmall : Image → Type 0
AreSmall image = (b : ℕ) → (image.inode b).kind ≡ type_dir → (image.inode b).blocks ≤ 12

abbrev block_at : Inode → Option ℕ → Option ℕ
block_at dir none = none
block_at dir (some i) = some ((dir.direct i).block)

find_in-small :
    (image : Image) (dir : Inode) (n : List ℕ)
    → dir.blocks ≤ 12
    → find_in image dir n ≡ block_at dir (find_item (dir.direct) n (dir.blocks) 0)
unfolding find_in
find_in-small image dir n few =
    let small : leb (dir.blocks) 12 ≡ true = ground arith in
    rw small (cases (find_item (dir.direct) n (dir.blocks) 0))
  where
    cases :
        (found : Option ℕ)
        → elim found [ none ↦ none | some i ↦ some ((dir.direct i).block) ] ≡ block_at dir found
    cases none = refl
    cases (some i) = refl

step-Leads :
    (image : Image) (b : ℕ) (n : List ℕ) (ns : List (List ℕ)) (found : Option ℕ)
    → (image.inode b).kind ≡ type_dir
    → First ((image.inode b).direct) n 0 ((image.inode b).blocks) found
    → ((d : ℕ) → Leads image d ns (walk image d ns))
    → Leads image b (n ∷ ns) (and_then (block_at (image.inode b) found) (λ d. walk image d ns))
step-Leads image b n ns none kind first rest = no_entry first
step-Leads image b n ns (some i) kind first rest =
    down kind first (rest (((image.inode b).direct i).block))

walk-Leads :
    (image : Image) (b : ℕ) (ns : List (List ℕ))
    → AreSmall image
    → Leads image b ns (walk image b ns)
walk-Leads image b [] small = arrived
walk-Leads image b (n ∷ ns) small = elim (same_or_not ((image.inode b).kind) type_dir) [
  | inl kind ↦
      let is_dir : (image.inode b).kind == type_dir ≡ true = ground arith in
      let dir = image.inode b in
      rw (is_dir, find_in-small image dir n (small b kind))
        (step-Leads image b n ns (find_item (dir.direct) n (dir.blocks) 0) kind
          (find_item-First (dir.direct) n (dir.blocks) 0) (λ d. walk-Leads image d ns small))
  | inr other ↦
      let is_file : (image.inode b).kind == type_dir ≡ false = ground arith in
      rw is_file (not_dir other)
]

-- In an image whose directories have at most 12 entries: `lookup` of a path of names, with fuel for one
-- level more than it has, returns, and what it gives is where the names lead: down through
-- directories, at each by the first entry with the name, and nothing at a file or where no entry
-- has the name.
pub lookup-Leads :
    (fuel : ℕ) (image : Image) (here : ℕ) (ns : List (List ℕ))
    → AreSmall image
    → AreNames ns
    → length ns < fuel
    → Returns (λ found. Leads image here ns found) (lookup fuel image (some here) (join ns))
lookup-Leads fuel image here ns small names enough =
    Returns-ok (lookup-walk fuel image here ns names enough) (walk-Leads image here ns small)
