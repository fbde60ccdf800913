-- ===== src/Builder/Whole.antt =====
-- `main` of mkfs/mksfs.c, and what kernel/fs.c reads from the image that it makes.
use moonix.Base.{
  ℕ, ◌+◌, ◌*◌, ◌/◌, ◌%◌, ◌≤◌, ◌<◌, ◌≡◌, refl, ap, ◌∙◌, arith, Bool, true, Option, none, some, List,
  [], ◌∷◌, update, Run, ok, Returns, returns, Returns-bind, Returns-mono, length, ltb, leb,
}
use mathlib.Core.Path.{subst, fun_ext}
use moonix.Files.{Image, Inode, InodeItem, block_size, type_dir, slash, lookup, init_fs, same_name}
use moonix.Files.Walk.{AreNames, join, lookup-walk_root}
use moonix.Files.Contents.{readall}
use moonix.Files.Reads.{entry, file_byte, readall-bytes}
use moonix.Builder.{
  Builder, Layout, Folder, copy_inode_to_block, set_dots, rootdir, start, walk as walk_dir, main,
  dot, dot_dot,
}
use moonix.Builder.Blocks.{IsCounted, Takes, count_free}
use moonix.Builder.Trees.{IsFile, Entry, file, folder, At, Shape, Carries, At-carried, count_items}
use moonix.Builder.Finds.{
  AreSmall, IsSmall, ArePlain, descend, Leads, walk-Leads, find, find-IsSmall,
}
use moonix.Builder.Growth.{Grows}
use moonix.Builder.Regular.{copy_inode-same}
use moonix.Builder.Entries.{need, add_entries-Fills, closed-At}

-- The inode `b` of the image reads as the entry: `readall` gives the bytes of a file.
abbrev pub ReadsAs : Image → ℕ → Entry → Type 0
ReadsAs image b (folder inner) = (image.inode b).kind ≡ type_dir
ReadsAs image b (file size content) =
    (memory : ℕ → ℕ) (buf : ℕ)
    → Returns
        (λ memory'.
          ((k : ℕ) → k < size → memory' (buf + k) ≡ content k)
          × ((a : ℕ) → a < buf → memory' a ≡ memory a))
        (readall image (image.inode b) memory buf)

-- `lookup` has ended, and has found the inode of the entry, or nothing if there is none.
abbrev pub LooksUp : Image → Run (Option ℕ) → Option Entry → Type 0
LooksUp image found none = found ≡ ok none
LooksUp image found (some e) = (b : ℕ) × (found ≡ ok (some b)) × ReadsAs image b e

-- Every path of names, without dots, from the root leads to what the directory has there.
abbrev pub Readable : Folder → Image → Type 0
Readable f image =
    (fuel : ℕ) (from : Option ℕ) (ns : List (List ℕ))
    → AreNames ns
    → ArePlain ns
    → length ns < fuel
    → LooksUp image (lookup fuel image from (slash ∷ join ns)) (descend (folder f) ns)

file-ReadsAs :
    (base : ℕ → Bool) (st : Builder) (b size : ℕ) (content : ℕ → ℕ)
    → size ≤ 12 * block_size
    → IsFile base st b size content
    → ReadsAs (st.image) b (file size content)
file-ReadsAs base st b size content small f memory buf =
    let image = st.image in
    let inode = image.inode b in
    let size' = f.length in
    let blocks = f.blocks in
    Returns-mono (readall-bytes image inode memory buf (f.kind) (omega arith))
      (λ memory' (bytes, before). (bytes_of memory' bytes, before))
  where
    inode : Inode
    inode = st.image.inode b

    bytes_of :
        (memory' : ℕ → ℕ)
        → ((k : ℕ) → k < inode.size → memory' (buf + k) ≡ file_byte (st.image) inode k)
        → (k : ℕ) → k < size
        → memory' (buf + k) ≡ content k
    bytes_of memory' bytes k h =
        let size' = f.length in
        let blocks = f.blocks in
        let few : leb (inode.blocks) 12 ≡ true = ground arith in
        let direct : entry (st.image) inode (k / block_size) ≡ inode.direct (k / block_size) =
          rw few refl in
        bytes k (omega arith)
        ∙ ap (λ (i : InodeItem). st.image.bytes (i.block) (k % block_size)) direct
        ∙ f.bytes k h

At-ReadsAs :
    (base : ℕ → Bool) (st : Builder) (b : ℕ) (e : Entry)
    → IsSmall e
    → At base st b e
    → ReadsAs (st.image) b e
At-ReadsAs base st b (file size content) small h = file-ReadsAs base st b size content (small.1) h
At-ReadsAs base st b (folder inner) small h = h.1.0

next-IsSmall :
    (x : Option Entry) (ns : List (List ℕ)) (e' : Entry)
    → ((e : Entry) → x ≡ some e → descend e ns ≡ some e' → IsSmall e')
    → (elim x [ none ↦ none | some e ↦ descend e ns ]) ≡ some e'
    → IsSmall e'
next-IsSmall none ns e' below found = absurd (ground arith)
next-IsSmall (some e) ns e' below found = below e refl found

descend-IsSmall :
    (e : Entry) (ns : List (List ℕ)) (e' : Entry) → IsSmall e → descend e ns ≡ some e' → IsSmall e'
descend-IsSmall e [] e' small found = let same : e ≡ e' = ground arith in subst IsSmall same small
descend-IsSmall (file size content) (n ∷ ns) e' small found = absurd (ground arith)
descend-IsSmall (folder inner) (n ∷ ns) e' small found =
    next-IsSmall (find n inner) ns e'
      (λ e here below. descend-IsSmall e ns e' (find-IsSmall n inner e (small.1) here) below) found

-- The inode that the walk leads to has been looked up.
Leads-LooksUp :
    (base : ℕ → Bool) (st : Builder) (found : Option ℕ) (e : Option Entry)
    → ((e' : Entry) → e ≡ some e' → IsSmall e')
    → Leads base st found e
    → LooksUp (st.image) (ok found) e
Leads-LooksUp base st none none small h = refl
Leads-LooksUp base st none (some e) small h = absurd h
Leads-LooksUp base st (some b) none small h = absurd h
Leads-LooksUp base st (some b) (some e) small h = (b, refl, At-ReadsAs base st b e (small e refl) h)

LooksUp-at :
    (image : Image) (found found' : Run (Option ℕ)) (e : Option Entry)
    → found ≡ found'
    → LooksUp image found' e
    → LooksUp image found e
LooksUp-at image found found' none same h = same ∙ h
LooksUp-at image found found' (some e) same (b, e', h) = (b, same ∙ e', h)

At-Readable :
    (base : ℕ → Bool) (st : Builder) (f : Folder)
    → IsSmall (folder f)
    → At base st (st.image.root_inode) (folder f)
    → Readable f (st.image)
At-Readable base st f small held fuel from ns names plain enough =
    LooksUp-at (st.image) _ _ _ (lookup-walk_root fuel (st.image) from ns names enough) (
      Leads-LooksUp base st _ _ (λ e' found. descend-IsSmall (folder f) ns e' small found)
        (walk-Leads base st ns (st.image.root_inode) (folder f) small plain held))

-- The builder before the block of the root's inode is taken.
abbrev unstarted : Layout → Builder
unstarted layout = record (start layout) { freemap = λ b. ltb b 2; freenum = 254 }

start-freemap :
    (layout : Layout) (b : ℕ) → (start layout).freemap b ≡ update (λ b'. ltb b' 2) 2 true b
start-freemap layout b = ground arith

start-Takes : (layout : Layout) → Takes (unstarted layout) 2 (start layout)
start-Takes layout = record {
  bound = omega arith;
  was_free = refl;
  lowest = λ n h. ground arith;
  taken = fun_ext (start-freemap layout);
  image = refl;
  left = refl;
  counted = refl;
}

root-dots :
    (inode : Inode)
    → ((set_dots rootdir inode 2).kind ≡ inode.kind)
      × (((set_dots rootdir inode 2).direct 0).filename ≡ dot)
      × (((set_dots rootdir inode 2).direct 1).filename ≡ dot_dot)
unfolding set_dots same_name
root-dots inode = (refl, refl, refl)

init_fs-Carries :
    (base : ℕ → Bool) (st : Builder) (n : ℕ)
    → Carries base st base (record st { image = init_fs n (st.image) })
unfolding init_fs
init_fs-Carries base st n = record { owned = λ b h. h; inode = λ b h. refl; bytes = λ b h. refl }

-- What `walk` gives for the root.
abbrev Walked : Layout → Folder → Inode × Builder → Type 0
Walked layout f (inode, st) =
    Grows (start layout) st
    × IsCounted st
    × (st.freenum + need f ≡ 253)
    × Shape ((start layout).freemap) st inode f

walk-Walked :
    (layout : Layout) (junk : ℕ → Inode) (f : Folder) (root : Inode)
    → root.kind ≡ type_dir
    → count_items f ≤ 10
    → AreSmall f
    → need f ≤ 253
    → Returns (Walked layout f) (walk_dir junk rootdir f root 2 (start layout))
unfolding walk_dir
walk-Walked layout junk f root kind few small fits =
    Returns-bind
      (add_entries-Fills junk rootdir f (set_dots rootdir root 2) 2 2 (start layout) small
        (omega arith) refl fits)
      (λ (inode, index, st) r.
        let (same, first, second) = root-dots root in
        returns (
          r.grows,
          r.counted,
          r.left,
          (
            r.kind ∙ same ∙ kind,
            r.items,
            ap (λ (i : InodeItem). i.filename) (r.before 0 (omega arith)) ∙ first,
            ap (λ (i : InodeItem). i.filename) (r.before 1 (omega arith)) ∙ second,
            r.stored,
          ),
        ))

-- The tree is read from the image when the root's inode has been written.
closed-Readable :
    (layout : Layout) (f : Folder) (inode : Inode) (st : Builder)
    → IsSmall (folder f)
    → Walked layout f (inode, st)
    → Readable f (init_fs 1 ((copy_inode_to_block 2 inode st).image))
unfolding init_fs
closed-Readable layout f inode st small
      (grows, counted, left, (kind, blocks, first, second, stored)) =
    let base = (unstarted layout).freemap in
    let closed = copy_inode_to_block 2 inode st in
    let held =
      closed-At (unstarted layout) (start layout) st 2 inode (start-Takes layout) f grows kind
        blocks first second stored in
    let st' = record closed { image = init_fs 1 (closed.image) } in
    At-Readable base st' f small
      (At-carried base closed base st' (init_fs-Carries base closed 1) 2 (folder f) held)

-- For a directory tree with at most 10 entries in each directory, files of at least 1 byte and
-- at most 12 blocks, names of at most 27 characters, and at most 253 blocks in all, whatever the
-- bytes of an inode read as otherwise: `main` returns; the superblock and the freemap count the
-- free blocks rightly; and in the image, as `initFs` takes it, `lookup` of a path of names, none
-- a dot or two, ends and gives what the tree has there, and nothing if it has nothing: a
-- directory, or a file of which `readall` gives the bytes.
pub main-Readable :
    (layout : Layout) (junk : ℕ → Inode) (f : Folder)
    → count_items f ≤ 10
    → AreSmall f
    → need f ≤ 253
    → Returns
        (λ (super, bitmap, st).
          (super.unused_blocks + need f ≡ 253)
          × (super.unused_blocks ≡ count_free (st.freemap) 256)
          × Readable f (init_fs (super.freemap_blocks) (st.image)))
        (main layout junk f)
unfolding main
main-Readable layout junk f few small fits =
    Returns-bind (walk-Walked layout junk f _ refl few small fits) (λ (inode, st) r.
      let same = copy_inode-same 2 inode st in
      let counted : st.freenum ≡ count_free ((copy_inode_to_block 2 inode st).freemap) 256 =
        rw (same.0) (r.1) in
      returns (r.2, counted, closed-Readable layout f inode st (few, small) r))
