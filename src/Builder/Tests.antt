-- ===== src/Builder/Tests.antt =====
-- An image of a small directory tree, for mkfs/mksfs.c.
use moonix.Base.{ℕ, ◌+◌, ◌≡◌, refl, arith, true, false, List, [], ◌∷◌, Returns}
use moonix.Files.{Inode, same_name, init_fs}
use moonix.Builder.{Folder, Layout, nothing, reg, dir, start, pack, main, get_free_block}
use moonix.Builder.Bitmap.{bits, bits-pack}
use moonix.Builder.Blocks.{Takes, count_free, get_free_block-Takes}
use moonix.Builder.Trees.{count_items}
use moonix.Builder.Finds.{AreSmall}
use moonix.Builder.Entries.{need}
use moonix.Builder.Whole.{Readable, main-Readable}

abbrev bin : List ℕ
bin = 98 ∷ 105 ∷ 110 ∷ []

abbrev sh : List ℕ
sh = 115 ∷ 104 ∷ []

-- The directory with `.`, and `bin` with the file `sh` of 5000 bytes.
abbrev tree : Folder
tree = dir (46 ∷ []) nothing (dir bin (reg sh 5000 (λ k. k) nothing) nothing)

abbrev junk : ℕ → Inode
junk b = record {
  size = 7;
  kind = 7;
  filename = sh;
  blocks = 7;
  direct = λ i. record { filename = bin; block = b };
  indirect = 0;
}

-- Views of a block that tell nothing of what was stored.
abbrev layout : Layout
layout = record {
  as_inode = λ content. junk 9;
  as_items = λ content i. record { filename = sh; block = 9 };
  with_inode = λ inode content k. 9;
  with_items = λ items content k. 9;
  long_inode = λ name inode. inode;
  long_item = λ name b. record { filename = name; block = b };
}

tree-need : need tree ≡ 4
unfolding same_name
tree-need = refl

tree-AreSmall : AreSmall tree
unfolding same_name
tree-AreSmall = (
  omega arith,
  omega arith,
  tt,
  (omega arith, omega arith, (omega arith, omega arith, omega arith, tt), tt),
)

tree-few : count_items tree ≡ 1
unfolding same_name
tree-few = refl

main-Readable_example :
    Returns
      (λ (super, bitmap, st).
        (super.unused_blocks + need tree ≡ 253)
        × (super.unused_blocks ≡ count_free (st.freemap) 256)
        × Readable tree (init_fs (super.freemap_blocks) (st.image)))
      (main layout junk tree)
main-Readable_example =
    main-Readable layout junk tree (omega (arith, tree-few)) tree-AreSmall
      (omega (arith, tree-need))

get_free_block-Takes_example :
    Returns (λ (b, st'). Takes (start layout) b st') (get_free_block (start layout))
get_free_block-Takes_example = get_free_block-Takes (start layout) refl (omega arith)

bits-pack_example :
    bits 8 (pack ((start layout).freemap) 0 8)
    ≡ true ∷ true ∷ true ∷ false ∷ false ∷ false ∷ false ∷ false ∷ []
bits-pack_example = bits-pack ((start layout).freemap) 0
