-- ===== src/Builder.antt =====
-- mkfs/mksfs.c and mkfs/simplefs.h: the program that packs the directory `rootfs` into an image of
-- 256 blocks. What `readdir`, `stat` and `fread` give for a directory of the host is a `Folder`:
-- its entries in order, with what stands in a directory behind its entry. A block is 4096 bytes that
-- are seen as an inode, as entries and as data, as in `Files`; what is written in one view changes
-- the two others too, as `Layout` says. `exit(1)` is `panic`. A C string is the list of its
-- characters; one that does not fit `filename[28]` runs over what lies behind it, and what the inode or
-- the entry is then is left open. `junk b` is what the stack holds where the inode for block `b` is declared.
pub mod Blocks
pub mod Trees
pub mod Finds
pub mod Growth
pub mod Copies
pub mod Regular
pub mod Entries
pub mod Whole
pub mod Bitmap
mod Tests
use moonix.Base.{
  ℕ, zero, suc, ◌+◌, ◌-◌, ◌*◌, ◌/◌, ◌%◌, ◌^◌, Bool, true, false, ◌||◌, Option, none, some, List, [],
  ◌∷◌, ◌++◌, update, Run, ok, panic, out_of_fuel, ◌>>=◌, ltb, leb, ◌==◌, if◌then◌else◌, length,
}
use Prim.Native.Nat.{bit_or}
use moonix.Files.{Image, Inode, InodeItem, block_size, type_file, type_dir, same_name, slash}

abbrev pub block_num : ℕ
block_num = 256

abbrev pub freemap_num : ℕ
freemap_num = 1

abbrev pub magic_num : ℕ
magic_num = 0x4d534653

-- What is read of a directory: regular files with their size and their bytes, directories with
-- what is in them, and entries of other types.
pub data Folder : Type 0 where
  nothing : Folder
  reg : List ℕ → ℕ → (ℕ → ℕ) → Folder → Folder
  dir : List ℕ → Folder → Folder → Folder
  other : List ℕ → Folder → Folder

pub record SuperBlock : Type 0 where
  pub magic : ℕ
  pub blocks : ℕ
  pub unused_blocks : ℕ
  pub freemap_blocks : ℕ
  pub info : List ℕ

-- How the bytes of a block read as an inode and as entries, and the bytes of a block after one of these
-- has been stored over it.
pub record Layout : Type 0 where
  pub as_inode : (ℕ → ℕ) → Inode
  pub as_items : (ℕ → ℕ) → ℕ → InodeItem
  pub with_inode : Inode → (ℕ → ℕ) → ℕ → ℕ
  pub with_items : (ℕ → InodeItem) → (ℕ → ℕ) → ℕ → ℕ
  -- An inode and an entry over which a name has run.
  pub long_inode : List ℕ → Inode → Inode
  pub long_item : List ℕ → ℕ → InodeItem

-- The characters of a name and the 0 behind them, in the field of an inode and of an entry.
unfoldable pub name_inode : Layout → List ℕ → Inode → Inode
name_inode layout name inode =
    if ltb (length name) 28 then record inode { filename = name } else layout.long_inode name inode

unfoldable pub name_item : Layout → List ℕ → ℕ → InodeItem
name_item layout name b =
    if ltb (length name) 28 then record { filename = name; block = b } else layout.long_item name b

-- `Image`, `freemap` and `freenum`.
pub record Builder : Type 0 where
  pub layout : Layout
  pub image : Image
  pub freemap : ℕ → Bool
  pub freenum : ℕ

-- The loop of `getFreeBlock`, with `rounds` blocks from `i` on to try.
unfoldable pub free_from : (ℕ → Bool) → ℕ → ℕ → Option ℕ
free_from freemap zero i = none
free_from freemap (suc rounds) i =
    let later = free_from freemap rounds (i + 1) in if freemap i then later else some i

-- The block that the loop has found is marked; `exit(1)` if there is none.
unfoldable pub take : Builder → Option ℕ → Run (ℕ × Builder)
take st none = panic
take st (some i) = ok (
  i,
  record st { freemap = update (st.freemap) i true; freenum = (st.freenum + 2 ^ 32 - 1) % 2 ^ 32 },
)

unfoldable pub get_free_block : Builder → Run (ℕ × Builder)
get_free_block st = take st (free_from (st.freemap) block_num 0)

unfoldable pub copy_inode_to_block : ℕ → Inode → Builder → Builder
copy_inode_to_block block_number inode st =
    let image = st.image in
    let content = st.layout.with_inode inode (image.bytes block_number) in
    record st {
      image = record image {
        inode = update (image.inode) block_number inode;
        items = update (image.items) block_number (st.layout.as_items content);
        bytes = update (image.bytes) block_number content;
      };
    }

-- `fread(buffer, size, 1, fp)` at the position `pos` of the file.
unfoldable pub write_block : ℕ → (ℕ → ℕ) → ℕ → ℕ → Builder → Builder
write_block b content pos size st =
    let image = st.image in
    let buffer = λ (k : ℕ). if ltb k size then content (pos + k) else image.bytes b k in
    record st {
      image = record image {
        inode = update (image.inode) b (st.layout.as_inode buffer);
        items = update (image.items) b (st.layout.as_items buffer);
        bytes = update (image.bytes) b buffer;
      };
    }

-- The `index`-th item of a file or a directory: in the inode, or in its indirect block.
unfoldable pub put_item : Inode → ℕ → InodeItem → Builder → Run (Inode × Builder)
unfolding get_free_block
put_item inode index item st =
    if ltb index 12
    then ok (record inode { direct = update (inode.direct) index item }, st)
    else (do
      (b, st') ← if inode.indirect == 0 then get_free_block st else ok (inode.indirect, st)
      let image = st'.image
      let inaddr = update (image.items b) (index - 12) item
      let content = st'.layout.with_items inaddr (image.bytes b)
      ok (
        record inode { indirect = b },
        record st' {
          image = record image {
            inode = update (image.inode) b (st'.layout.as_inode content);
            items = update (image.items) b inaddr;
            bytes = update (image.bytes) b content;
          };
        },
      ))

-- `while(l)`: the blocks of a file, whose bytes from `pos` on are left to copy.
unfoldable pub copy_blocks : ℕ → (ℕ → ℕ) → ℕ → ℕ → ℕ → Inode → Builder → Run (Inode × Builder)
copy_blocks zero content l pos index inode st = if l == 0 then ok (inode, st) else out_of_fuel
copy_blocks (suc fuel) content l pos index inode st =
    let size = if ltb block_size l then block_size else l in
    if l == 0 then ok (inode, st) else (do
      (ffb, st1) ← get_free_block st
      let st2 = write_block ffb content pos size st1
      (inode', st3) ← put_item inode index (record { filename = []; block = ffb }) st2
      copy_blocks fuel content (l - size) (pos + size) (index + 1) inode' st3)

abbrev pub dot : List ℕ
dot = 46 ∷ []

abbrev pub dot_dot : List ℕ
dot_dot = 46 ∷ 46 ∷ []

abbrev pub is_dots : List ℕ → Bool
is_dots name = same_name name dot || same_name name dot_dot

-- `rootfs`
abbrev pub rootdir : List ℕ
rootdir = 114 ∷ 111 ∷ 111 ∷ 116 ∷ 102 ∷ 115 ∷ []

-- The first items of a directory, as `walk` sets them.
unfoldable pub set_dots : List ℕ → Inode → ℕ → Inode
set_dots dir_name inode number =
    let direct = update (inode.direct) 0 (record { filename = dot; block = number }) in
    if same_name dir_name rootdir
    then record inode { direct = update direct 1 (record { filename = dot_dot; block = number }) }
    else record inode { direct = direct }

module _ (junk : ℕ → Inode) where
  -- The inode of a regular file, and its blocks.
  unfoldable pub add_file : List ℕ → ℕ → (ℕ → ℕ) → Builder → Run (ℕ × Builder)
  add_file name st_size content st = do
    (block_number, st1) ← get_free_block st
    let size = st_size % 2 ^ 32
    let unnamed : Inode = record (junk block_number) { kind = type_file }
    let finode : Inode = record (name_inode (st1.layout) name unnamed) {
      size = size;
      blocks = (size + 2 ^ 32 - 1) % 2 ^ 32 / block_size + 1;
    }
    (finode', st2) ← copy_blocks size content size 0 0 finode st1
    ok (block_number, copy_inode_to_block block_number finode' st2)

  -- The inode of a directory before its entries are read.
  unfoldable pub new_dir : Layout → List ℕ → ℕ → ℕ → Inode
  unfolding name_inode
  new_dir layout name up block_number =
      let unnamed : Inode = record (junk block_number) { size = 0; kind = type_dir } in
      let dinode = name_inode layout name unnamed in
      record dinode {
        direct = update (dinode.direct) 1 (record { filename = dot_dot; block = up });
      }

  -- The loop of `walk`, with the inode of the directory and the index of its next item. For a
  -- directory in it, `walk` is written out: its first items, the loop, and `blocks`.
  unfoldable pub add_entries : List ℕ → Folder → Inode → ℕ → ℕ → Builder → Run (Inode × ℕ × Builder)
  add_entries dir_name nothing inode number index st = ok (inode, index, st)
  add_entries dir_name (other name rest) inode number index st =
      add_entries dir_name rest inode number index st
  add_entries dir_name (reg name st_size content rest) inode number index st =
      let skip = add_entries dir_name rest inode number index st in
      if is_dots name then skip else (do
        (b, st1) ← add_file name st_size content st
        (inode', st2) ← put_item inode index (name_item (st1.layout) name b) st1
        add_entries dir_name rest inode' number (index + 1) st2)
  add_entries dir_name (dir name inner rest) inode number index st =
      let skip = add_entries dir_name rest inode number index st in
      let path = dir_name ++ slash ∷ name in
      if is_dots name then skip else (do
        (b, st1) ← get_free_block st
        let dinode = set_dots path (new_dir (st1.layout) name number b) b
        (dinode', empty_index, st2) ← add_entries path inner dinode b 2 st1
        let st3 = copy_inode_to_block b (record dinode' { blocks = empty_index }) st2
        (inode', st4) ← put_item inode index (name_item (st3.layout) name b) st3
        add_entries dir_name rest inode' number (index + 1) st4)

  unfoldable pub walk : List ℕ → Folder → Inode → ℕ → Builder → Run (Inode × Builder)
  walk dir_name folder inode number st = do
    (inode', empty_index, st') ←
        add_entries dir_name folder (set_dots dir_name inode number) number 2 st
    ok (record inode' { blocks = empty_index }, st')

-- One byte of the freemap block: the loop over `j`.
unfoldable pub pack : (ℕ → Bool) → ℕ → ℕ → ℕ
pack freemap i zero = 0
pack freemap i (suc j) =
    let c = pack freemap i j in if freemap (i * 8 + j) then bit_or c (2 ^ j) else c

abbrev pub blank_image : Image
blank_image = record {
  root_inode = freemap_num + 1;
  inode = λ b. record {
    size = 0;
    kind = 0;
    filename = [];
    blocks = 0;
    direct = λ i. record { filename = []; block = 0 };
    indirect = 0;
  };
  items = λ b i. record { filename = []; block = 0 };
  bytes = λ b i. 0;
}

-- The blocks for the superblock, the freemap and the root inode are taken.
abbrev pub start : Layout → Builder
start layout = record {
  layout = layout;
  image = blank_image;
  freemap = λ b. ltb b (freemap_num + 2);
  freenum = block_num - (freemap_num + 2);
}

-- `SimpleFS By Ziyang`
abbrev pub info_text : List ℕ
info_text =
    83 ∷ 105 ∷ 109 ∷ 112 ∷ 108 ∷ 101 ∷ 70 ∷ 83 ∷ 32 ∷ 66 ∷ 121 ∷ 32 ∷ 90 ∷ 105 ∷ 121 ∷ 97 ∷ 110
    ∷ 103 ∷ []

-- `main`: the superblock, the bytes of the freemap block, and the rest of the image.
unfoldable pub main : Layout → (ℕ → Inode) → Folder → Run (SuperBlock × (ℕ → ℕ) × Builder)
main layout junk folder = do
  let root = junk (freemap_num + 1)
  let root_inode : Inode = record root { size = 0; kind = type_dir; filename = slash ∷ [] }
  (inode, st) ← walk junk rootdir folder root_inode (freemap_num + 1) (start layout)
  let super : SuperBlock = record {
    magic = magic_num;
    blocks = block_num;
    unused_blocks = st.freenum;
    freemap_blocks = freemap_num;
    info = info_text;
  }
  ok (super, (λ i. pack (st.freemap) i 8), copy_inode_to_block (freemap_num + 1) inode st)
