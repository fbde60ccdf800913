-- ===== src/Builder/Regular.antt =====
-- A regular file in an image of mkfs/mksfs.c: its inode and its blocks.
use moonix.Base.{
  length, ltb, ℕ, ◌+◌, ◌-◌, ◌*◌, ◌/◌, ◌%◌, ◌^◌, ◌≤◌, ◌<◌, ◌≡◌, ◌≢◌, refl, sym, ap, ◌∙◌, arith, inl,
  inr, Bool, true, false, Bool-cases, List, update-at, update-other, ok, ◌>>=◌, Returns, returns,
  Returns-bind,
}
use moonix.Files.{Inode, block_size, type_file}
use moonix.Builder.{Builder, copy_inode_to_block, copy_blocks, add_file, name_inode}
use moonix.Builder.Blocks.{IsCounted, Takes, get_free_block-Takes}
use moonix.Builder.Trees.{Owns, IsFile}
use moonix.Builder.Growth.{Grows, Grows-trans, Takes-at, Takes-other, Takes-Grows}
use moonix.Builder.Copies.{Copied, copy_blocks-Copied}

-- A block that was not free then is not free now.
pub Grows-free :
    (st st' : Builder) (n : ℕ) → Grows st st' → st'.freemap n ≡ false → st.freemap n ≡ false
Grows-free st st' n g free = elim (Bool-cases (st.freemap n)) [
  | inr is_free ↦ is_free
  | inl used ↦ let clash : true ≡ false = sym (g.taken n used) ∙ free in absurd (ground arith)
]

pub inode-at :
    (b : ℕ) (inode : Inode) (st : Builder) → (copy_inode_to_block b inode st).image.inode b ≡ inode
unfolding copy_inode_to_block
inode-at b inode st = update-at (st.image.inode) b inode

pub copy_inode-IsCounted :
    (b : ℕ) (inode : Inode) (st : Builder)
    → IsCounted st
    → IsCounted (copy_inode_to_block b inode st)
unfolding copy_inode_to_block
copy_inode-IsCounted b inode st c = c

pub copy_inode-same :
    (b : ℕ) (inode : Inode) (st : Builder)
    → ((copy_inode_to_block b inode st).freemap ≡ st.freemap)
      × ((copy_inode_to_block b inode st).freenum ≡ st.freenum)
      × ((n : ℕ) → b ≢ n → (copy_inode_to_block b inode st).image.bytes n ≡ st.image.bytes n)
unfolding copy_inode_to_block
copy_inode-same b inode st = (refl, refl, λ n other. update-other (st.image.bytes) b _ n other)

-- An inode that is written to a block that was free does not touch what was taken.
pub copy_inode-Grows :
    (b : ℕ) (inode : Inode) (st st' : Builder)
    → ((n : ℕ) → st.freemap n ≡ true → b ≢ n)
    → Grows st st'
    → Grows st (copy_inode_to_block b inode st')
unfolding copy_inode_to_block
copy_inode-Grows b inode st st' other g = record {
  taken = g.taken;
  inode = λ n used. update-other (st'.image.inode) b inode n (other n used) ∙ g.inode n used;
  bytes = λ n used. update-other (st'.image.bytes) b _ n (other n used) ∙ g.bytes n used;
}

-- The inode `b` was free, and is taken now for a file.
pub record FileAdded (st : Builder) (size : ℕ) (content : ℕ → ℕ) (b : ℕ) (st' : Builder)
    : Type 0 where
  pub grows : Grows st st'
  pub counted : IsCounted st'
  pub left : st'.freenum + (1 + (size + 4095) / block_size) ≡ st.freenum
  pub file : IsFile (st.freemap) st' b size content

module _ (st st1 st2 : Builder) (b size : ℕ) (content : ℕ → ℕ) (finode finode' : Inode)
    (t : Takes st b st1) (r : Copied content size 0 0 finode st1 finode' st2)
    (kind : finode.kind ≡ type_file) (length : finode.size ≡ size)
    (blocks : finode.blocks ≡ (size + 4095) / block_size) where
  abbrev st3 : Builder
  st3 = copy_inode_to_block b finode' st2

  abbrev block : ℕ → ℕ
  block k = (finode'.direct (k / block_size)).block

  block-0 : (k : ℕ) → (finode'.direct (0 + k / block_size)).block ≡ block k
  block-0 k =
      let e : 0 + k / block_size ≡ k / block_size = omega arith in
      ap (λ j. (finode'.direct j).block) e

  owned-0 : (n : ℕ) → Owns (st1.freemap) st2 n → Owns (st.freemap) st3 n
  owned-0 n (free, used) = (
    Grows-free st st1 n (Takes-Grows st st1 b t) free,
    ap (λ (f : ℕ → Bool). f n) (copy_inode-same b finode' st2).0 ∙ used,
  )

  -- The inode's own block is none of the blocks that were taken after it.
  not_own : (n : ℕ) → Owns (st1.freemap) st2 n → b ≢ n
  not_own n (free, used) e =
      let clash : true ≡ false = sym (Takes-at st st1 b t) ∙ ap (st1.freemap) e ∙ free in
      absurd (ground arith)

  written-IsFile : IsFile (st.freemap) st3 b size content
  written-IsFile =
      let at = inode-at b finode' st2 in
      let (kept_kind, kept_size, kept_blocks) = r.head in
      record {
        owned = (
          t.was_free,
          ap (λ (f : ℕ → Bool). f b) (copy_inode-same b finode' st2).0
              ∙ (r.grows).taken b (Takes-at st st1 b t),
        );
        kind = ap (λ (i : Inode). i.kind) at ∙ kept_kind ∙ kind;
        length = ap (λ (i : Inode). i.size) at ∙ kept_size ∙ length;
        blocks = ap (λ (i : Inode). i.blocks) at ∙ kept_blocks ∙ blocks;
        block_owned = λ k h. rw (at, sym (block-0 k)) (owned-0 _ (r.owned k h));
        bytes = λ k h.
            let place : 0 + k ≡ k = omega arith in
            let own = r.owned k h in
            let kept = (copy_inode-same b finode' st2).2 _ (not_own _ own) in
            rw (at, sym (block-0 k))
              (ap (λ (f : ℕ → ℕ). f (k % block_size)) kept ∙ r.bytes k h ∙ ap content place);
      }

  file-added : FileAdded st size content b st3
  file-added =
      let grows = Grows-trans st st1 st2 (Takes-Grows st st1 b t) (r.grows) in
      let left = r.left in
      let before = t.left in
      record {
        grows = copy_inode-Grows b finode' st st2 (Takes-other st st1 b t) grows;
        counted = copy_inode-IsCounted b finode' st2 (r.counted);
        left = rw (copy_inode-same b finode' st2).1 (omega arith);
        file = written-IsFile;
      }

-- `add_file`, for the inode as it is before its blocks are copied.
copy-FileAdded :
    (st st1 : Builder) (b size : ℕ) (content : ℕ → ℕ) (finode : Inode)
    → Takes st b st1
    → finode.kind ≡ type_file
    → finode.size ≡ size
    → finode.blocks ≡ (size + 4095) / block_size
    → (size + 4095) / block_size ≤ 12
    → 1 + (size + 4095) / block_size ≤ st.freenum
    → Returns
        (λ (b', st'). FileAdded st size content b' st')
        (copy_blocks size content size 0 0 finode st1 >>= λ (finode', st2).
          ok (b, copy_inode_to_block b finode' st2))
copy-FileAdded st st1 b size content finode t kind length blocks small free =
    let before = t.left in
    Returns-bind
      (copy_blocks-Copied size content size 0 0 finode st1 (omega arith) (omega arith) (t.counted)
        (omega arith))
      (λ (finode', st2) r.
        returns (file-added st st1 st2 b size content finode finode' t r kind length blocks))

-- For a file with a name of at most 27 characters, of at least 1 byte and at most 12 blocks, and enough free blocks for it and its inode:
-- `add_file` returns, the inode shows the file with its bytes, all in blocks that were
-- free, and nothing that was in the image before has changed.
pub add_file-FileAdded :
    (junk : ℕ → Inode) (name : List ℕ) (size : ℕ) (content : ℕ → ℕ) (st : Builder)
    → length name < 28
    → 0 < size
    → size ≤ 12 * block_size
    → IsCounted st
    → 1 + (size + 4095) / block_size ≤ st.freenum
    → Returns (λ (b, st'). FileAdded st size content b st') (add_file junk name size content st)
unfolding add_file name_inode
add_file-FileAdded junk name size content st short low high c free =
    let word : size % 2 ^ 32 ≡ size = omega arith in
    let blocks : (size + 2 ^ 32 - 1) % 2 ^ 32 / block_size + 1 ≡ (size + 4095) / block_size =
      omega arith in
    let named : ltb (length name) 28 ≡ true = ground arith in
    rw (word, named)
      (Returns-bind (get_free_block-Takes st c (omega arith)) (λ (b, st1) t.
        copy-FileAdded st st1 b size content _ t refl refl blocks (omega arith) free))
