-- ===== src/Files.antt =====
-- kernel/fs.c and kernel/fs.h: the file system image. An inode, and a block of directory entries,
-- is known by its block number, which `getBlockAddr` turns into an address; `Image` shows the
-- same bytes as inodes, as entries and as data. A name is the list of its characters before the
-- one that is 0, and `strcmp` of two of them is 0 exactly if the lists are equal (kernel/string.c).
-- `direct` past its twelfth entry is what lies behind the array.
pub mod Walk
pub mod Leads
pub mod Contents
pub mod Reads
pub mod Paths
pub mod Tests
use moonix.Base.{
  ℕ, zero, suc, ◌+◌, ◌-◌, ◌*◌, Bool, true, false, ◌&&◌, ◌||◌, Option, none, some, List, [], ◌∷◌,
  ◌++◌, Run, ok, panic, out_of_fuel, ◌>>=◌, ltb, leb, ◌==◌, if◌then◌else◌, length,
}

abbrev pub block_size : ℕ
block_size = 4096

abbrev pub type_file : ℕ
type_file = 0

abbrev pub type_dir : ℕ
type_dir = 1

pub record InodeItem : Type 0 where
  pub filename : List ℕ
  pub block : ℕ

pub record Inode : Type 0 where
  pub size : ℕ
  pub kind : ℕ
  pub filename : List ℕ
  pub blocks : ℕ
  pub direct : ℕ → InodeItem
  pub indirect : ℕ

pub record Image : Type 0 where
  pub root_inode : ℕ
  pub inode : ℕ → Inode
  pub items : ℕ → ℕ → InodeItem
  pub bytes : ℕ → ℕ → ℕ

abbrev pub slash : ℕ
slash = 47

unfoldable pub same_name : List ℕ → List ℕ → Bool
same_name [] [] = true
same_name [] (d ∷ t) = false
same_name (c ∷ s) [] = false
same_name (c ∷ s) (d ∷ t) = c == d && same_name s t

-- The name before the first `/`, and what follows that `/`.
unfoldable pub split : List ℕ → List ℕ × List ℕ
split [] = ([], [])
split (c ∷ path) =
    let (target, rest) = split path in if c == slash then ([], path) else (c ∷ target, rest)

-- The index of the first entry with the name, of `rounds` entries from `i` on.
unfoldable pub find_item : (ℕ → InodeItem) → List ℕ → ℕ → ℕ → Option ℕ
unfolding same_name
find_item items target zero i = none
find_item items target (suc rounds) i =
    let later = find_item items target rounds (i + 1) in
    if same_name (items i).filename target then some i else later

-- The block of the inode that `lookup` goes on with in the directory `dir`.
unfoldable pub find_in : Image → Inode → List ℕ → Option ℕ
unfolding find_item
find_in image dir target =
    let block_of = λ (i : ℕ). some ((dir.direct i).block) in
    if leb dir.blocks 12
    then elim (find_item dir.direct target dir.blocks 0) [ none ↦ none | some i ↦ block_of i ]
    else elim (find_item dir.direct target 12 0) [
      | some i ↦ block_of i
      | none ↦ elim (find_item (image.items dir.indirect) target (dir.blocks - 12) 12) [
        | none ↦ none
        | some i ↦ block_of i
      ]
    ]

-- `initFs`: the root's inode lies behind the blocks of the freemap.
unfoldable pub init_fs : ℕ → Image → Image
init_fs freemap_blocks image = record image { root_inode = freemap_blocks + 1 }

-- A leading `/` starts at the root.
unfoldable pub start_at : Image → Option ℕ → List ℕ → ℕ × List ℕ
start_at image none [] = (image.root_inode, [])
start_at image (some here) [] = (here, [])
start_at image none (c ∷ path) = (image.root_inode, if c == slash then path else c ∷ path)
start_at image (some here) (c ∷ path) =
    if c == slash then (image.root_inode, path) else (here, c ∷ path)

-- `return 0` if no entry has the name, else the next level.
unfoldable pub go_on : (ℕ → Run (Option ℕ)) → Option ℕ → Run (Option ℕ)
go_on next none = ok none
go_on next (some b) = next b

-- The search in the directory `here` for the first name of the path; `next` is the recursive call.
unfoldable pub resolve : (ℕ → List ℕ → Run (Option ℕ)) → Image → ℕ × List ℕ → Run (Option ℕ)
resolve next image (here, path) =
    let (target, rest) = split path in
    let found = go_on (λ b. next b rest) (find_in image (image.inode here) target) in
    if length path == 0
    then ok (some here)
    else if (image.inode here).kind == type_dir
    then found
    else ok none

-- A null pointer is `none`.
unfoldable pub lookup : ℕ → Image → Option ℕ → List ℕ → Run (Option ℕ)
lookup zero image from filename = out_of_fuel
lookup (suc fuel) image from filename =
    resolve (λ b rest. lookup fuel image (some b) rest) image (start_at image from filename)
