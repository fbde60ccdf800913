-- ===== src/Files/Contents.antt =====
-- kernel/fs.c: reading a file into memory, listing a directory, and the path of an inode.
use moonix.Base.{
  ℕ, zero, suc, ◌+◌, ◌-◌, Option, none, some, List, [], ◌∷◌, ◌++◌, Run, ok, panic, update, leb,
  ◌==◌, if◌then◌else◌,
}
use moonix.Files.{Image, Inode, InodeItem, block_size, type_file}

-- `copyByteToBuf`: the first `n` bytes of `src` go to `dst`.
unfoldable pub copy_byte_to_buf : (ℕ → ℕ) → (ℕ → ℕ) → ℕ → ℕ → ℕ → ℕ
copy_byte_to_buf src memory dst zero = memory
copy_byte_to_buf src memory dst (suc n) =
    update (copy_byte_to_buf src memory dst n) (dst + n) (src n)

abbrev pub copy_size : ℕ → ℕ
copy_size l = if leb block_size l then block_size else l

-- What a loop of `readall` leaves: memory, where the next block goes, and the bytes left.
pub record Reading : Type 0 where
  pub memory : ℕ → ℕ
  pub buf : ℕ
  pub left : ℕ

unfoldable pub read_block : Image → ℕ → Reading → Reading
unfolding copy_byte_to_buf
read_block image b r =
    let n = copy_size r.left in
    record {
      memory = copy_byte_to_buf (image.bytes b) r.memory r.buf n;
      buf = r.buf + n;
      left = r.left - n;
    }

-- The blocks of `rounds` entries from `i` on.
unfoldable pub read_blocks : Image → (ℕ → InodeItem) → ℕ → ℕ → Reading → Reading
unfolding read_block
read_blocks image items zero i r = r
read_blocks image items (suc rounds) i r =
    read_blocks image items rounds (i + 1) (read_block image (items i).block r)

-- `int l, b` have no width here: a file of the format has at most 140 blocks.
unfoldable pub readall : Image → Inode → (ℕ → ℕ) → ℕ → Run (ℕ → ℕ)
unfolding read_blocks
readall image inode memory buf =
    let start : Reading = record { memory = memory; buf = buf; left = inode.size } in
    let few = read_blocks image inode.direct inode.blocks 0 start in
    let first = read_blocks image inode.direct 12 0 start in
    let all = read_blocks image (image.items inode.indirect) (inode.blocks - 12) 0 first in
    if inode.kind == type_file
    then (if leb inode.blocks 12 then ok few.memory else ok all.memory)
    else panic

-- The names of `rounds` entries from `i` on.
unfoldable pub names : (ℕ → InodeItem) → ℕ → ℕ → List (List ℕ)
names items zero i = []
names items (suc rounds) i = (items i).filename ∷ names items rounds (i + 1)

-- What `ls` lists; `none` for a file, for which it prints a message.
unfoldable pub ls : Image → Inode → Option (List (List ℕ))
unfolding names
ls image inode =
    let few = names inode.direct inode.blocks 0 in
    let all = names inode.direct 12 0 ++ names (image.items inode.indirect) (inode.blocks - 12) 0 in
    if inode.kind == type_file then none else some (if leb inode.blocks 12 then few else all)
