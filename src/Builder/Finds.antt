-- ===== src/Builder/Finds.antt =====
-- What kernel/fs.c finds in the directories of an image of mkfs/mksfs.c.
use moonix.Base.{
  length, ℕ, suc, ◌+◌, ◌*◌, ◌≤◌, ◌<◌, ◌≡◌, refl, ap, ◌∙◌, arith, inl, inr, Bool, true, false,
  Bool-cases, Option, none, some, List, [], ◌∷◌, leb, ◌==◌, if◌then◌else◌,
}
use moonix.Files.{Image, Inode, InodeItem, block_size, type_dir, same_name, find_item, find_in}
use mathlib.Core.Path.{subst}
use moonix.Files.Walk.{walk, and_then}
use moonix.Builder.{Builder, Folder, nothing, reg, dir, other, is_dots, dot, dot_dot}
use moonix.Builder.Trees.{At, Shape, Stored, count_items, Entry, file, folder}

-- What a directory has under a name.
abbrev pub find : List ℕ → Folder → Option Entry
find target nothing = none
find target (other name rest) = find target rest
find target (reg name size content rest) =
    let later = find target rest in
    if is_dots name
    then later
    else if same_name name target
    then some (file size content)
    else later
find target (dir name inner rest) =
    let later = find target rest in
    if is_dots name then later else if same_name name target then some (folder inner) else later

-- What `find_item` gives for a name is the item of the entry, or nothing if there is none.
abbrev Finds : (ℕ → Bool) → Builder → (ℕ → InodeItem) → Option ℕ → Option Entry → Type 0
Finds base st items none none = Unit
Finds base st items none (some e) = ⊥
Finds base st items (some j) none = ⊥
Finds base st items (some j) (some e) = At base st ((items j).block) e

module _ (base : ℕ → Bool) (st : Builder) (items : ℕ → InodeItem) (target : List ℕ) where
  Finds-named :
      (i rounds : ℕ) (name : List ℕ) (e : Entry) (later : Option Entry)
      → (items i).filename ≡ name
      → At base st ((items i).block) e
      → Finds base st items (find_item items target rounds (i + 1)) later
      → Finds base st items
          (find_item items target (suc rounds) i)
          (if same_name name target then some e else later)
  unfolding find_item
  Finds-named i rounds name e later named held rest =
      let test : same_name ((items i).filename) target ≡ same_name name target =
        ap (λ n. same_name n target) named in
      rw test (elim (Bool-cases (same_name name target)) [
        | inl is_it ↦ rw is_it held
        | inr other_name ↦ rw other_name rest
      ])

  -- An entry that is skipped, or has the next item.
  Finds-entry :
      (skipped : Bool) (i : ℕ) (name : List ℕ) (e : Entry) (rest : Folder)
      → ((j : ℕ)
          → Stored base st items j rest
          → Finds base st items (find_item items target (count_items rest) j) (find target rest))
      → (if skipped
          then Stored base st items i rest
          else ((items i).filename ≡ name)
            × At base st ((items i).block) e
            × Stored base st items (i + 1) rest)
      → Finds base st items
          (find_item items target ((if skipped then 0 else 1) + count_items rest) i)
          (if skipped
            then find target rest
            else if same_name name target
            then some e
            else find target rest)
  Finds-entry true i name e rest later s =
      let none_more : 0 + count_items rest ≡ count_items rest = omega arith in
      rw none_more (later i s)
  Finds-entry false i name e rest later (named, held, s) =
      let one_more : 1 + count_items rest ≡ suc (count_items rest) = omega arith in
      rw one_more
        (Finds-named i (count_items rest) name e (find target rest) named held (later (i + 1) s))

  find_item-Finds :
      (f : Folder) (i : ℕ)
      → Stored base st items i f
      → Finds base st items (find_item items target (count_items f) i) (find target f)
  unfolding find_item
  find_item-Finds nothing i s = tt
  find_item-Finds (other name rest) i s = find_item-Finds rest i s
  find_item-Finds (reg name size content rest) i s =
      Finds-entry (is_dots name) i name (file size content) rest (λ j. find_item-Finds rest j) s
  find_item-Finds (dir name inner rest) i s =
      Finds-entry (is_dots name) i name (folder inner) rest (λ j. find_item-Finds rest j) s

-- From an entry down the names.
abbrev pub descend : Entry → List (List ℕ) → Option Entry
descend e [] = some e
descend (file size content) (n ∷ ns) = none
descend (folder inner) (n ∷ ns) = elim (find n inner) [ none ↦ none | some e ↦ descend e ns ]

-- No name is `.` or `..`.
abbrev pub ArePlain : List (List ℕ) → Type 0
ArePlain [] = Unit
ArePlain (n ∷ ns) = (is_dots n ≡ false) × ArePlain ns

-- Every directory has at most 10 entries that get an item, every file has between 1 byte and 12
-- blocks, and every name fits `filename[28]`.
abbrev pub AreSmall : Folder → Type 0
AreSmall nothing = Unit
AreSmall (other name rest) = AreSmall rest
AreSmall (reg name size content rest) =
    (length name < 28) × (0 < size) × (size ≤ 12 * block_size) × AreSmall rest
AreSmall (dir name inner rest) =
    (length name < 28) × (count_items inner ≤ 10) × AreSmall inner × AreSmall rest

abbrev pub IsSmall : Entry → Type 0
IsSmall (file size content) = (0 < size) × (size ≤ 12 * block_size)
IsSmall (folder inner) = (count_items inner ≤ 10) × AreSmall inner

-- What a walk finds is the inode of the entry, or nothing if there is none.
abbrev pub Leads : (ℕ → Bool) → Builder → Option ℕ → Option Entry → Type 0
Leads base st none none = Unit
Leads base st none (some e) = ⊥
Leads base st (some b) none = ⊥
Leads base st (some b) (some e) = At base st b e

chosen-IsSmall :
    (skipped it : Bool) (here : Entry) (later : Option Entry) (e : Entry)
    → IsSmall here
    → (later ≡ some e → IsSmall e)
    → (if skipped then later else if it then some here else later) ≡ some e
    → IsSmall e
chosen-IsSmall true it here later e h below found = below found
chosen-IsSmall false true here later e h below found =
    let same : here ≡ e = ground arith in subst IsSmall same h
chosen-IsSmall false false here later e h below found = below found

pub find-IsSmall :
    (target : List ℕ) (f : Folder) (e : Entry) → AreSmall f → find target f ≡ some e → IsSmall e
find-IsSmall target nothing e small found = absurd (ground arith)
find-IsSmall target (other name rest) e small found = find-IsSmall target rest e small found
find-IsSmall target (reg name size content rest) e (short, low, high, small) found =
    chosen-IsSmall (is_dots name) (same_name name target) _ _ e (low, high)
      (find-IsSmall target rest e small) found
find-IsSmall target (dir name inner rest) e (short, few, inside, small) found =
    chosen-IsSmall (is_dots name) (same_name name target) _ _ e (few, inside)
      (find-IsSmall target rest e small) found

same_name_comm : (s t : List ℕ) → same_name s t ≡ same_name t s
unfolding same_name
same_name_comm [] [] = refl
same_name_comm [] (d ∷ t) = refl
same_name_comm (c ∷ s) [] = refl
same_name_comm (c ∷ s) (d ∷ t) = ground (arith, same_name_comm s t)

block_at : (ℕ → InodeItem) → Option ℕ → Option ℕ
block_at items none = none
block_at items (some i) = some ((items i).block)

find_in-few :
    (image : Image) (inode : Inode) (target : List ℕ)
    → inode.blocks ≤ 12
    → find_in image inode target
      ≡ block_at (inode.direct) (find_item (inode.direct) target (inode.blocks) 0)
unfolding find_in block_at
find_in-few image inode target h =
    let few : leb (inode.blocks) 12 ≡ true = ground arith in
    rw few (go (find_item (inode.direct) target (inode.blocks) 0))
  where
    go :
        (found : Option ℕ)
        → (elim found [ none ↦ none | some i ↦ some ((inode.direct i).block) ])
          ≡ block_at (inode.direct) found
    go none = refl
    go (some i) = refl

find_item-skip :
    (items : ℕ → InodeItem) (target : List ℕ) (rounds i : ℕ)
    → same_name (items i).filename target ≡ false
    → find_item items target (suc rounds) i ≡ find_item items target rounds (i + 1)
unfolding find_item
find_item-skip items target rounds i h = rw h refl

block_at-Leads :
    (base : ℕ → Bool) (st : Builder) (items : ℕ → InodeItem) (found : Option ℕ) (e : Option Entry)
    → Finds base st items found e
    → Leads base st (block_at items found) e
unfolding block_at
block_at-Leads base st items none none h = tt
block_at-Leads base st items none (some e) h = h
block_at-Leads base st items (some j) none h = h
block_at-Leads base st items (some j) (some e) h = h

find_in-Leads :
    (base : ℕ → Bool) (st : Builder) (inode : Inode) (inner : Folder) (target : List ℕ)
    → is_dots target ≡ false
    → count_items inner ≤ 10
    → Shape base st inode inner
    → Leads base st (find_in (st.image) inode target) (find target inner)
find_in-Leads base st inode inner target plain few (kind, blocks, first, second, items) =
    let not_dot : same_name (inode.direct 0).filename target ≡ false =
      ap (λ n. same_name n target) first ∙ same_name_comm dot target ∙ ground arith in
    let not_dot_dot : same_name (inode.direct 1).filename target ≡ false =
      ap (λ n. same_name n target) second ∙ same_name_comm dot_dot target ∙ ground arith in
    let n = count_items inner in
    let all : inode.blocks ≡ suc (suc n) = blocks ∙ omega arith in
    rw
      (
        find_in-few (st.image) inode target (omega arith),
        all,
        find_item-skip (inode.direct) target (suc n) 0 not_dot,
        find_item-skip (inode.direct) target n 1 not_dot_dot,
      )
      (block_at-Leads base st (inode.direct) _ _
        (find_item-Finds base st (inode.direct) target inner 2 items))

Leads-next :
    (base : ℕ → Bool) (st : Builder) (found : Option ℕ) (e : Option Entry) (next : ℕ → Option ℕ)
    (next' : Entry → Option Entry)
    → Leads base st found e
    → ((b : ℕ) (e' : Entry) → e ≡ some e' → At base st b e' → Leads base st (next b) (next' e'))
    → Leads base st (and_then found next) (elim e [ none ↦ none | some e' ↦ next' e' ])
Leads-next base st none none next next' h below = tt
Leads-next base st none (some e') next next' h below = absurd h
Leads-next base st (some b) none next next' h below = absurd h
Leads-next base st (some b) (some e') next next' h below = below b e' refl h

-- For an inode that is that of a small entry: the walk of `kernel/fs.c` down names of which none
-- is a dot or two leads to what the entry has there.
pub walk-Leads :
    (base : ℕ → Bool) (st : Builder) (ns : List (List ℕ)) (b : ℕ) (e : Entry)
    → IsSmall e
    → ArePlain ns
    → At base st b e
    → Leads base st (walk (st.image) b ns) (descend e ns)
walk-Leads base st [] b e small plain held = held
walk-Leads base st (n ∷ ns) b (file size content) small plain held =
    let kind = held.kind in
    let no_dir : (st.image.inode b).kind == type_dir ≡ false = ground arith in rw no_dir tt
walk-Leads base st (n ∷ ns) b (folder inner) (few, small) (no_dots, plain) (owned, shape) =
    let kind = shape.0 in
    let is_dir : (st.image.inode b).kind == type_dir ≡ true = ground arith in
    rw is_dir (
      Leads-next base st _ (find n inner) (λ b'. walk (st.image) b' ns) (λ e'. descend e' ns)
        (find_in-Leads base st _ inner n no_dots few shape)
        (λ b' e' found held.
          walk-Leads base st ns b' e' (find-IsSmall n inner e' small found) plain held))
