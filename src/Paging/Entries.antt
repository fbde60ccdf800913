-- ===== src/Paging/Entries.antt =====
-- What the words of a page table say, for kernel/mapping.c.
use Prim.Native.Nat.{bit_and, bit_or}
use moonix.Base.{ℕ, ◌+◌, ◌-◌, ◌*◌, ◌/◌, ◌%◌, ◌^◌, ◌<◌, ◌≡◌, arith, ap, ◌∙◌, false, ok, refl, ◌==◌}
use moonix.Heap.Bits.{pow2}
use moonix.Frames.{Frames}
use moonix.Paging.{
  Mapping, load, fill_entry, next_entry, find_entry, get_vpn_levels, shift64, pde_mask,
}
use moonix.Paging.Words.{low_bits, and_shifted, or_shifted, or_zero}

nine_bits : (x : ℕ) → bit_and x 0x1ff ≡ x % 512
unfolding pow2
nine_bits x = low_bits 9 x

-- The three indices are below 512, and a page number of 27 bits is read off them again.
pub get_vpn_levels-lem :
    (vpn : ℕ)
    → vpn < 2 ^ 27
    → let (level0, level1, level2) = get_vpn_levels vpn in
      (level0 < 512)
      × (level1 < 512)
      × (level2 < 512)
      × (level0 * 2 ^ 18 + level1 * 2 ^ 9 + level2 ≡ vpn)
unfolding get_vpn_levels
get_vpn_levels-lem vpn h =
    let a = nine_bits (vpn / 2 ^ 18) in
    let b = nine_bits (vpn / 2 ^ 9) in
    let c = nine_bits vpn in (omega arith, omega arith, omega arith, omega arith)

ten_bits_or : (a b : ℕ) → bit_or (a * 1024) b ≡ bit_or a (b / 1024) * 1024 + b % 1024
unfolding pow2
ten_bits_or a b = or_shifted 10 a b

-- The page number and the flags of an entry do not overlap.
entry-sum : (ppn flags : ℕ) → flags < 1024 → bit_or (ppn * 1024) flags ≡ ppn * 1024 + flags
entry-sum ppn flags h =
    let none : flags / 1024 ≡ 0 = omega arith in
    ten_bits_or ppn flags ∙ rw (none, or_zero ppn) (omega arith)

masked : (x : ℕ) → bit_and x pde_mask ≡ x / 1024 % 2 ^ 44 * 1024
unfolding pow2
masked x = and_shifted 10 x (2 ^ 44 - 1) ∙ ap (λ (z : ℕ). z * 1024) (low_bits 44 (x / 1024))

-- The address that `findEntry` reads from an entry is that of the page that the entry names,
-- whatever its flags are, for the page numbers of 56-bit addresses.
entry-address :
    (ppn flags : ℕ)
    → ppn < 2 ^ 44
    → flags < 2 ^ 10
    → shift64 (bit_and (bit_or (shift64 ppn (2 ^ 10)) flags) pde_mask) 4 ≡ ppn * 4096
entry-address ppn flags h k =
    let short : shift64 ppn (2 ^ 10) ≡ ppn * 1024 = omega arith in
    let mask = masked (ppn * 1024 + flags) in rw (short, entry-sum ppn flags k, mask) (omega arith)

-- The word of an entry that names a page.
abbrev pub entry_word : ℕ → ℕ → ℕ
entry_word ppn flags = bit_or (shift64 ppn (2 ^ 10)) flags

-- The entry of a page table that is not empty: for a 44-bit page number and flags that are not all 0.
pub record IsEntry (ppn flags : ℕ) : Type 0 where
  pub page : ppn < 2 ^ 44
  pub some_flag : 0 < flags
  pub ten_bits : flags < 2 ^ 10

next_entry-lem :
    (level entry ppn flags : ℕ) (f : Frames)
    → IsEntry ppn flags
    → load (f.memory) entry 8 ≡ entry_word ppn flags
    → next_entry level entry f ≡ ok (ppn * 4096 + level * 8, f)
unfolding next_entry fill_entry
next_entry-lem level entry ppn flags f is_entry word =
    let page = is_entry.page in
    let ten_bits = is_entry.ten_bits in
    let some_flag = is_entry.some_flag in
    let short : shift64 ppn (2 ^ 10) ≡ ppn * 1024 = omega arith in
    let sum : entry_word ppn flags ≡ ppn * 1024 + flags = rw short (entry-sum ppn flags ten_bits) in
    let full : entry_word ppn flags == 0 ≡ false = rw sum (ground arith) in
    let address = entry-address ppn flags page ten_bits in rw (word, full, word, address) refl

-- In tables of three levels in which the entries on the way are not empty: `findEntry` of a virtual page
-- number of 27 bits returns the address of its entry in the table of the last level, through
-- the pages that the entries name whatever their flags are, and changes nothing.
pub find_entry-walks :
    (m : Mapping) (vpn ppn1 flags1 ppn2 flags2 : ℕ) (f : Frames)
    → vpn < 2 ^ 27
    → m.root_ppn < 2 ^ 44
    → IsEntry ppn1 flags1
    → IsEntry ppn2 flags2
    → load (f.memory) (m.root_ppn * 4096 + vpn / 2 ^ 18 * 8) 8 ≡ entry_word ppn1 flags1
    → load (f.memory) (ppn1 * 4096 + vpn / 2 ^ 9 % 512 * 8) 8 ≡ entry_word ppn2 flags2
    → find_entry m vpn f ≡ ok (ppn2 * 4096 + vpn % 512 * 8, f)
unfolding find_entry get_vpn_levels
find_entry-walks m vpn ppn1 flags1 ppn2 flags2 f bits root first second word1 word2 =
    let short : shift64 (m.root_ppn) (2 ^ 12) ≡ m.root_ppn * 4096 = omega arith in
    let low : vpn / 2 ^ 18 % 512 ≡ vpn / 2 ^ 18 = omega arith in
    rw
      (
        nine_bits (vpn / 2 ^ 18),
        nine_bits (vpn / 2 ^ 9),
        nine_bits vpn,
        low,
        short,
        next_entry-lem (vpn / 2 ^ 9 % 512) (m.root_ppn * 4096 + vpn / 2 ^ 18 * 8) ppn1 flags1 f
            first word1,
      )
      (next_entry-lem (vpn % 512) (ppn1 * 4096 + vpn / 2 ^ 9 % 512 * 8) ppn2 flags2 f second word2)
