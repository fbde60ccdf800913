-- ===== src/Files/Tests.antt =====
-- An image with the directory `/bin` and the file `/bin/sh`.
use moonix.Base.{
  inl, inr, same_or_not, ◌+◌, ◌<◌, ℕ, ◌≡◌, refl, arith, none, some, List, [], ◌∷◌, ok, Returns,
  ◌==◌, if◌then◌else◌,
}
use moonix.Files.{Image, Inode, lookup, resolve, start_at, go_on, find_in, split, slash, same_name}
use moonix.Files.Paths.{get_inode_path, Spells, Under, full_path, get_inode_path-Spells}
use moonix.Files.Reads.{file_byte, readall-bytes}
use moonix.Files.Contents.{readall, ls}
use moonix.Files.Leads.{Leads, AreSmall, lookup-Leads}
use moonix.Files.Walk.{join}

abbrev pub bin : List ℕ
bin = 98 ∷ 105 ∷ 110 ∷ []

abbrev pub sh : List ℕ
sh = 115 ∷ 104 ∷ []

abbrev pub folder : List ℕ → ℕ → Inode
folder name entry = record {
  size = 0;
  kind = 1;
  filename = [];
  blocks = 1;
  direct = λ i. record { filename = name; block = entry };
  indirect = 0;
}

abbrev pub image : Image
image = record {
  root_inode = 2;
  inode = λ b.
      if b == 2
      then folder bin 3
      else if b == 3
      then folder sh 4
      else record (folder [] 0) { kind = 0 };
  items = λ b i. record { filename = []; block = 0 };
  bytes = λ b i. 0;
}

finds_shell : lookup 3 image none (slash ∷ join (bin ∷ sh ∷ [])) ≡ ok (some 4)
unfolding lookup resolve start_at go_on find_in split
finds_shell = refl

lists_root : ls image (image.inode 2) ≡ some (bin ∷ [])
unfolding ls
lists_root = refl

image-AreSmall : AreSmall image
image-AreSmall b kind = elim (same_or_not b 2) [
  | inl e ↦ rw e (omega arith)
  | inr other ↦ elim (same_or_not b 3) [ inl e ↦ rw e (omega arith) | inr other' ↦ ground arith ]
]

lookup-Leads_example :
    Returns
      (λ found. Leads image 2 (bin ∷ sh ∷ []) found)
      (lookup 3 image (some 2) (join (bin ∷ sh ∷ [])))
lookup-Leads_example =
    lookup-Leads 3 image 2 (bin ∷ sh ∷ []) image-AreSmall
      ((omega arith, refl), ((omega arith, refl), tt)) (omega arith)

-- A file of 5000 bytes in the blocks 7 and 8, each byte of which is the block's number.
abbrev two_blocks : Inode
two_blocks = record {
  size = 5000;
  kind = 0;
  filename = sh;
  blocks = 2;
  direct = λ i. record { filename = []; block = i + 7 };
  indirect = 0;
}

abbrev numbered : Image
numbered = record image { bytes = λ b i. b }

readall-bytes_example :
    Returns
      (λ memory'.
        ((k : ℕ) → k < 5000 → memory' (64 + k) ≡ file_byte numbered two_blocks k)
        × ((a : ℕ) → a < 64 → memory' a ≡ 0))
      (readall numbered two_blocks (λ a. 0) 64)
readall-bytes_example = readall-bytes numbered two_blocks (λ a. 0) 64 refl (omega arith)

-- The directory `/bin` with its name and the entry for the root.
abbrev bin_below : Inode
bin_below = record {
  size = 0;
  kind = 1;
  filename = bin;
  blocks = 2;
  direct = λ i.
      if i == 0
      then record { filename = 46 ∷ []; block = 3 }
      else record { filename = 46 ∷ 46 ∷ []; block = 2 };
  indirect = 0;
}

abbrev named_image : Image
named_image = record image {
  inode = λ b. if b == 3 then bin_below else record bin_below { filename = slash ∷ [] };
}

bin-Under : Under named_image 3 (bin ∷ [])
unfolding lookup resolve start_at go_on find_in split same_name
bin-Under = (refl, refl, (2, refl, refl))

get_inode_path-Spells_example :
    Returns
      (λ (p, buf). Spells buf p (full_path (bin ∷ [])))
      (get_inode_path 2 named_image 3 (λ i. 7))
get_inode_path-Spells_example =
    get_inode_path-Spells 2 named_image 3 (bin ∷ []) (λ i. 7) (omega arith) bin-Under (omega arith)
