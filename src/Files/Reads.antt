-- ===== src/Files/Reads.antt =====
-- What `readall` (kernel/fs.c) leaves in memory.
use moonix.Base.{
  ℕ, zero, suc, ◌+◌, ◌-◌, ◌*◌, ◌/◌, ◌%◌, ◌≤◌, ◌<◌, ◌≡◌, refl, sym, ap, ◌∙◌, arith, ◌⊎◌, inl, inr,
  true, false, Bool-cases, ok, ltb, leb, ◌==◌, if◌then◌else◌, Returns, Returns-ok,
}
use moonix.Files.{Image, Inode, InodeItem, block_size, type_file}
use moonix.Files.Contents.{copy_byte_to_buf, copy_size, Reading, read_block, read_blocks, readall}

copied :
    (src memory : ℕ → ℕ) (dst n k : ℕ) → k < n → copy_byte_to_buf src memory dst n (dst + k) ≡ src k
unfolding copy_byte_to_buf
copied src memory dst zero k h = absurd (omega arith)
copied src memory dst (suc n) k h =
    let last : (k < n) ⊎ (k ≡ n) = omega arith in
    elim last [ inl less ↦ ground (arith, copied src memory dst n k less) | inr e ↦ ground arith ]

not_copied :
    (src memory : ℕ → ℕ) (dst n a : ℕ) → a < dst → copy_byte_to_buf src memory dst n a ≡ memory a
unfolding copy_byte_to_buf
not_copied src memory dst zero a h = refl
not_copied src memory dst (suc n) a h = ground (arith, not_copied src memory dst n a h)

-- A loop of `readall` has put the next bytes of the blocks at the place where it started.
record Reads (image : Image) (items : ℕ → InodeItem) (rounds i : ℕ) (r r' : Reading) : Type 0 where
  pub before : (a : ℕ) → a < r.buf → r'.memory a ≡ r.memory a
  pub bytes :
      (k : ℕ)
      → k < r.left
      → k < rounds * block_size
      → r'.memory (r.buf + k) ≡ image.bytes ((items (i + k / block_size)).block) (k % block_size)
  pub left : r'.left ≡ r.left - rounds * block_size
  pub buf : r'.buf + r'.left ≡ r.buf + r.left

read_block-left :
    (image : Image) (b : ℕ) (r : Reading)
    → ((read_block image b r).left ≡ r.left - block_size)
      × ((read_block image b r).buf + (read_block image b r).left ≡ r.buf + r.left)
unfolding read_block
read_block-left image b r = (ground arith, ground arith)

read_block-bytes :
    (image : Image) (b : ℕ) (r : Reading) (k : ℕ)
    → k < r.left
    → k < block_size
    → (read_block image b r).memory (r.buf + k) ≡ image.bytes b k
unfolding read_block
read_block-bytes image b r k h h' =
    copied (image.bytes b) r.memory r.buf (copy_size r.left) k (ground arith)

read_block-before :
    (image : Image) (b : ℕ) (r : Reading) (a : ℕ)
    → a < r.buf
    → (read_block image b r).memory a ≡ r.memory a
unfolding read_block
read_block-before image b r a h = not_copied (image.bytes b) r.memory r.buf (copy_size r.left) a h

read_blocks-Reads :
    (image : Image) (items : ℕ → InodeItem) (rounds i : ℕ) (r : Reading)
    → Reads image items rounds i r (read_blocks image items rounds i r)
unfolding read_blocks
read_blocks-Reads image items zero i r = record {
  before = λ a h. refl;
  bytes = λ k h h'. absurd (omega arith);
  left = omega arith;
  buf = refl;
}
read_blocks-Reads image items (suc rounds) i r =
    let b = (items i).block in
    let r1 = read_block image b r in
    let (left, total) = read_block-left image b r in
    let rest = read_blocks-Reads image items rounds (i + 1) r1 in
    record {
      before = λ a h. rest.before a (omega arith) ∙ read_block-before image b r a h;
      bytes = λ k h h'.
          let near : (k < block_size) ⊎ (block_size ≤ k) = omega arith in
          elim near [
            | inl first ↦
                let here : i + k / block_size ≡ i = omega arith in
                let rest_of : k % block_size ≡ k = omega arith in
                rest.before (r.buf + k) (omega arith)
                ∙ read_block-bytes image b r k h first
                ∙ sym (
                    ap (λ j. image.bytes ((items j).block) (k % block_size)) here
                    ∙ ap (image.bytes b) rest_of)
            | inr later ↦
                let next : r.buf + k ≡ r1.buf + (k - block_size) = omega arith in
                let index : i + 1 + (k - block_size) / block_size ≡ i + k / block_size =
                  omega arith in
                let offset : (k - block_size) % block_size ≡ k % block_size = omega arith in
                ap (read_blocks image items rounds (i + 1) r1).memory next
                ∙ rest.bytes (k - block_size) (omega arith) (omega arith)
                ∙ ap (λ j. image.bytes ((items j).block) ((k - block_size) % block_size)) index
                ∙ ap (image.bytes ((items (i + k / block_size)).block)) offset
          ];
      left = rest.left ∙ omega arith;
      buf = rest.buf ∙ total;
    }

-- The entry for block `i` of a file.
abbrev pub entry : Image → Inode → ℕ → InodeItem
entry image inode i =
    if leb inode.blocks 12
    then inode.direct i
    else if ltb i 12
    then inode.direct i
    else image.items inode.indirect (i - 12)

-- Byte `k` of a file.
abbrev pub file_byte : Image → Inode → ℕ → ℕ
file_byte image inode k = image.bytes ((entry image inode (k / block_size)).block) (k % block_size)

module _ (image : Image) (inode : Inode) (memory : ℕ → ℕ) (buf : ℕ)
    (file : inode.kind ≡ type_file) where
  abbrev start : Reading
  start = record { memory = memory; buf = buf; left = inode.size }

  abbrev first_blocks : Reading
  first_blocks = read_blocks image inode.direct 12 0 start

  abbrev all_blocks : Reading
  all_blocks = read_blocks image (image.items inode.indirect) (inode.blocks - 12) 0 first_blocks

  readall-few :
      leb inode.blocks 12 ≡ true
      → readall image inode memory buf
        ≡ ok (read_blocks image inode.direct inode.blocks 0 start).memory
  unfolding readall
  readall-few few =
      let is_file : inode.kind == type_file ≡ true = ground arith in rw (is_file, few) refl

  readall-many : leb inode.blocks 12 ≡ false → readall image inode memory buf ≡ ok all_blocks.memory
  unfolding readall
  readall-many many =
      let is_file : inode.kind == type_file ≡ true = ground arith in rw (is_file, many) refl

  entry-few : (j i : ℕ) → i ≡ j → leb inode.blocks 12 ≡ true → inode.direct i ≡ entry image inode j
  entry-few j i e few = rw few (ap inode.direct e)

  entry-first :
      (j i : ℕ)
      → i ≡ j
      → j < 12
      → leb inode.blocks 12 ≡ false
      → inode.direct i ≡ entry image inode j
  entry-first j i e low many =
      let first : ltb j 12 ≡ true = ground arith in rw (many, first) (ap inode.direct e)

  entry-indirect :
      (j i : ℕ)
      → i ≡ j - 12
      → 12 ≤ j
      → leb inode.blocks 12 ≡ false
      → image.items inode.indirect i ≡ entry image inode j
  entry-indirect j i e high many =
      let later : ltb j 12 ≡ false = ground arith in
      rw (many, later) (ap (image.items inode.indirect) e)

  byte_of :
      (k o : ℕ) (e e' : InodeItem) → e ≡ e' → o ≡ k → image.bytes e.block o ≡ image.bytes e'.block k
  byte_of k o e e' p q =
      ap (λ (x : InodeItem). image.bytes x.block o) p ∙ ap (image.bytes e'.block) q

  all_blocks-bytes :
      inode.size ≤ inode.blocks * block_size
      → leb inode.blocks 12 ≡ false
      → (k : ℕ) → k < inode.size
      → all_blocks.memory (buf + k) ≡ file_byte image inode k
  all_blocks-bytes fits many k h =
      let r = read_blocks-Reads image inode.direct 12 0 start in
      let r' =
        read_blocks-Reads image (image.items inode.indirect) (inode.blocks - 12) 0 first_blocks in
      let left = r.left in
      let total = r.buf in
      let near : (k < 12 * block_size) ⊎ (12 * block_size ≤ k) = omega arith in
      elim near [
        | inl first ↦
            r'.before (buf + k) (omega arith)
            ∙ r.bytes k h first
            ∙ byte_of (k % block_size) (k % block_size) _ _
                (entry-first (k / block_size) (0 + k / block_size) (omega arith) (omega arith) many)
                refl
        | inr later ↦
            let k' = k - 12 * block_size in
            let next : buf + k ≡ first_blocks.buf + k' = omega arith in
            ap all_blocks.memory next
            ∙ r'.bytes k' (omega arith) (ground arith)
            ∙ byte_of (k % block_size) (k' % block_size) _ _
                (entry-indirect (k / block_size) (0 + k' / block_size) (omega arith) (omega arith)
                  many)
                (omega arith)
      ]

  -- `readall` of a file whose blocks are enough for its size returns, with the bytes of the file
  -- at `buf` in order, and what lies before `buf` as it was.
  pub readall-bytes :
      inode.size ≤ inode.blocks * block_size
      → Returns
          (λ memory'.
            ((k : ℕ) → k < inode.size → memory' (buf + k) ≡ file_byte image inode k)
            × ((a : ℕ) → a < buf → memory' a ≡ memory a))
          (readall image inode memory buf)
  readall-bytes fits = elim (Bool-cases (leb inode.blocks 12)) [
    | inl few ↦
        let r = read_blocks-Reads image inode.direct inode.blocks 0 start in
        Returns-ok (readall-few few) (
          λ k h.
              r.bytes k h (omega arith)
              ∙ byte_of (k % block_size) (k % block_size) _ _
                  (entry-few (k / block_size) (0 + k / block_size) (omega arith) few) refl,
          r.before,
        )
    | inr many ↦
        let r = read_blocks-Reads image inode.direct 12 0 start in
        let r' =
          read_blocks-Reads image (image.items inode.indirect) (inode.blocks - 12) 0 first_blocks in
        let left = r.left in
        let total = r.buf in
        Returns-ok (readall-many many)
          (all_blocks-bytes fits many, λ a h. r'.before a (omega arith) ∙ r.before a h)
  ]
