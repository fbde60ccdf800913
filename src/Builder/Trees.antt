-- ===== src/Builder/Trees.antt =====
-- What an image of mkfs/mksfs.c has to show of the directory it was made from, and what
-- kernel/fs.c then finds in it. Blocks that `base` had free hold the files and directories.
use moonix.Base.{ℕ, ◌+◌, ◌/◌, ◌%◌, ◌<◌, ◌≡◌, ap, ◌∙◌, Bool, true, false, if◌then◌else◌}
use moonix.Files.{Inode, InodeItem, block_size, type_file, type_dir}
use moonix.Builder.{Builder, Folder, nothing, reg, dir, other, is_dots, dot, dot_dot}

-- The block is taken, and `base` had it free.
abbrev pub Owns : (ℕ → Bool) → Builder → ℕ → Type 0
Owns base st b = (base b ≡ false) × (st.freemap b ≡ true)

-- The inode `b` is that of a file of at most 12 blocks with the content.
pub record IsFile (base : ℕ → Bool) (st : Builder) (b size : ℕ) (content : ℕ → ℕ) : Type 0 where
  pub owned : Owns base st b
  pub kind : (st.image.inode b).kind ≡ type_file
  pub length : (st.image.inode b).size ≡ size
  pub blocks : (st.image.inode b).blocks ≡ (size + 4095) / block_size
  pub block_owned :
      (k : ℕ) → k < size → Owns base st (((st.image.inode b).direct (k / block_size)).block)
  pub bytes :
      (k : ℕ)
      → k < size
      → st.image.bytes (((st.image.inode b).direct (k / block_size)).block) (k % block_size)
        ≡ content k

-- The entries that get an item.
abbrev pub count_items : Folder → ℕ
count_items nothing = 0
count_items (other name rest) = count_items rest
count_items (reg name size content rest) = (if is_dots name then 0 else 1) + count_items rest
count_items (dir name inner rest) = (if is_dots name then 0 else 1) + count_items rest

-- The items from `i` on are those of the entries, and lead to what these hold.
abbrev pub Stored : (ℕ → Bool) → Builder → (ℕ → InodeItem) → ℕ → Folder → Type 0
Stored base st items i nothing = Unit
Stored base st items i (other name rest) = Stored base st items i rest
Stored base st items i (reg name size content rest) =
    if is_dots name
    then Stored base st items i rest
    else ((items i).filename ≡ name)
      × IsFile base st ((items i).block) size content
      × Stored base st items (i + 1) rest
Stored base st items i (dir name inner rest) =
    let b = (items i).block in
    let inode = st.image.inode b in
    if is_dots name
    then Stored base st items i rest
    else ((items i).filename ≡ name)
      × (Owns base st b
          × ((inode.kind ≡ type_dir)
              × (inode.blocks ≡ 2 + count_items inner)
              × ((inode.direct 0).filename ≡ dot)
              × ((inode.direct 1).filename ≡ dot_dot)
              × Stored base st (inode.direct) 2 inner))
      × Stored base st items (i + 1) rest

pub data Entry : Type 0 where
  file : ℕ → (ℕ → ℕ) → Entry
  folder : Folder → Entry

-- The inode is that of a directory with the entries.
abbrev pub Shape : (ℕ → Bool) → Builder → Inode → Folder → Type 0
Shape base st inode inner =
    (inode.kind ≡ type_dir)
    × (inode.blocks ≡ 2 + count_items inner)
    × ((inode.direct 0).filename ≡ dot)
    × ((inode.direct 1).filename ≡ dot_dot)
    × Stored base st (inode.direct) 2 inner

-- The inode `b` is that of the entry.
abbrev pub At : (ℕ → Bool) → Builder → ℕ → Entry → Type 0
At base st b (file size content) = IsFile base st b size content
At base st b (folder inner) = Owns base st b × Shape base st (st.image.inode b) inner

-- One of two things that follow from one of two others.
choice :
    {S S' T T' : Type 0} (b : Bool)
    → (S → S')
    → (T → T')
    → (if b then S else T)
    → (if b then S' else T')
choice true f g h = f h
choice false f g h = g h

-- What is said of the blocks that `base` had free is still so.
pub record Carries (base : ℕ → Bool) (st : Builder) (base' : ℕ → Bool) (st' : Builder)
    : Type 0 where
  pub owned : (n : ℕ) → Owns base st n → Owns base' st' n
  pub inode : (n : ℕ) → Owns base st n → st'.image.inode n ≡ st.image.inode n
  pub bytes : (n : ℕ) → Owns base st n → st'.image.bytes n ≡ st.image.bytes n

module _ (base : ℕ → Bool) (st : Builder) (base' : ℕ → Bool) (st' : Builder)
    (c : Carries base st base' st') where
  pub IsFile-carried :
      (b size : ℕ) (content : ℕ → ℕ)
      → IsFile base st b size content
      → IsFile base' st' b size content
  IsFile-carried b size content f =
      let same = c.inode b (f.owned) in
      let block = λ (k : ℕ). ap (λ (inode : Inode). (inode.direct (k / block_size)).block) same in
      record {
        owned = c.owned b (f.owned);
        kind = ap (λ (inode : Inode). inode.kind) same ∙ f.kind;
        length = ap (λ (inode : Inode). inode.size) same ∙ f.length;
        blocks = ap (λ (inode : Inode). inode.blocks) same ∙ f.blocks;
        block_owned = λ k h. rw (block k) (c.owned _ (f.block_owned k h));
        bytes = λ k h. rw (block k) (
            ap (λ (content' : ℕ → ℕ). content' (k % block_size)) (c.bytes _ (f.block_owned k h))
            ∙ f.bytes k h);
      }

  dir-carried :
      (inner : Folder) (b : ℕ)
      → Owns base st b
      → ((items : ℕ → InodeItem) → Stored base st items 2 inner → Stored base' st' items 2 inner)
      → Shape base st (st.image.inode b) inner
      → Owns base' st' b × Shape base' st' (st'.image.inode b) inner
  dir-carried inner b owned below shape =
      let (k, n, d, dd, items) = shape in
      rw (c.inode b owned) (c.owned b owned, (k, n, d, dd, below _ items))

  pub Stored-carried :
      (f : Folder) (items : ℕ → InodeItem) (i : ℕ)
      → Stored base st items i f
      → Stored base' st' items i f
  Stored-carried nothing items i s = tt
  Stored-carried (other name rest) items i s = Stored-carried rest items i s
  Stored-carried (reg name size content rest) items i s =
      choice (is_dots name) (λ s'. Stored-carried rest items i s')
        (λ (e, held, s').
          (e, IsFile-carried _ size content held, Stored-carried rest items (i + 1) s'))
        s
  Stored-carried (dir name inner rest) items i s =
      choice (is_dots name) (λ s'. Stored-carried rest items i s')
        (λ (e, (owned, shape), s'). (
          e,
          dir-carried inner ((items i).block) owned (λ items'. Stored-carried inner items' 2) shape,
          Stored-carried rest items (i + 1) s',
        ))
        s

  pub At-carried : (b : ℕ) (e : Entry) → At base st b e → At base' st' b e
  At-carried b (file size content) h = IsFile-carried b size content h
  At-carried b (folder inner) (owned, shape) =
      dir-carried inner b owned (λ items. Stored-carried inner items 2) shape
