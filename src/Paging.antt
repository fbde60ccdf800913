-- ===== src/Paging.antt =====
-- kernel/mapping.c and kernel/mapping.h: page tables of three levels (Sv39). Memory is indexed by
-- physical addresses, which the kernel reaches through its linear mapping, so a pointer to an
-- entry is the physical address of the entry. Words have 64 bits and lie in memory with the
-- lowest byte first. Writing `satp` and flushing the TLB are left out: `satp` is the value.
pub mod Words
pub mod Copy
pub mod Entries
pub mod Segments
mod Tests
use Prim.Native.Nat.{bit_and, bit_or}
use moonix.Base.{
  ℕ, zero, suc, ◌+◌, ◌-◌, ◌*◌, ◌/◌, ◌%◌, ◌^◌, Run, ok, panic, ◌>>=◌, update, ltb, leb, ◌==◌,
  if◌then◌else◌,
}
use moonix.Frames.{Frames, page_size, kernel_map_offset, alloc_frame}

abbrev pub kernel_page_offset : ℕ
kernel_page_offset = 0xf_ffff_fff0_0000

abbrev pub pde_mask : ℕ
pde_mask = 0x003f_ffff_ffff_fc00

abbrev pub memory_end_paddr : ℕ
memory_end_paddr = 0x8800_0000

abbrev pub valid : ℕ
valid = 1

abbrev pub readable : ℕ
readable = 2

abbrev pub writable : ℕ
writable = 4

abbrev pub executable : ℕ
executable = 8

abbrev pub user : ℕ
user = 16

-- `a - b` and `a << d` on 64-bit words, with `p` for `2 ^ d`.
abbrev pub sub64 : ℕ → ℕ → ℕ
sub64 a b = (a + 2 ^ 64 - b) % 2 ^ 64

abbrev pub shift64 : ℕ → ℕ → ℕ
shift64 a p = a * p % 2 ^ 64

-- The `n` bytes from `addr` on, as a number.
unfoldable pub load : (ℕ → ℕ) → ℕ → ℕ → ℕ
load memory addr zero = 0
load memory addr (suc n) = memory addr + load memory (addr + 1) n * 256

unfoldable pub store : (ℕ → ℕ) → ℕ → ℕ → ℕ → ℕ → ℕ
store memory addr zero v = memory
store memory addr (suc n) v = store (update memory addr (v % 256)) (addr + 1) n (v / 256)

pub record Segment : Type 0 where
  pub start_vaddr : ℕ
  pub end_vaddr : ℕ
  pub flags : ℕ

pub record Mapping : Type 0 where
  pub root_ppn : ℕ

unfoldable pub get_vpn_levels : ℕ → ℕ × ℕ × ℕ
get_vpn_levels vpn = (bit_and (vpn / 2 ^ 18) 0x1ff, bit_and (vpn / 2 ^ 9) 0x1ff, bit_and vpn 0x1ff)

unfoldable pub new_mapping : Frames → Run (Mapping × Frames)
new_mapping f = do
  (root_paddr, f') ← alloc_frame f
  ok (record { root_ppn = root_paddr / 2 ^ 12 }, f')

-- `accessVaViaPa`
abbrev pub access_va_via_pa : ℕ → ℕ
access_va_via_pa pa = (pa + kernel_map_offset) % 2 ^ 64

-- The next page table, made if the entry is empty.
unfoldable pub fill_entry : ℕ → Frames → Run Frames
unfolding load store
fill_entry entry f =
    if load (f.memory) entry 8 == 0
    then (do
      (addr, f') ← alloc_frame f
      let new_ppn = addr / 2 ^ 12
      ok (record f' {
        memory = store (f'.memory) entry 8 (bit_or (shift64 new_ppn (2 ^ 10)) valid);
      }))
    else ok f

-- One round of the loop of `findEntry`.
unfoldable pub next_entry : ℕ → ℕ → Frames → Run (ℕ × Frames)
unfolding fill_entry
next_entry level entry f = do
  f' ← fill_entry entry f
  let next_page_addr = shift64 (bit_and (load (f'.memory) entry 8) pde_mask) 4
  ok (next_page_addr + level * 8, f')

unfoldable pub find_entry : Mapping → ℕ → Frames → Run (ℕ × Frames)
unfolding get_vpn_levels next_entry
find_entry self vpn f =
    let (level0, level1, level2) = get_vpn_levels vpn in
    let entry = shift64 (self.root_ppn) (2 ^ 12) + level0 * 8 in
    (do (entry1, f1) ← next_entry level1 entry f; next_entry level2 entry1 f1)

abbrev pub start_vpn : Segment → ℕ
start_vpn segment = segment.start_vaddr / page_size

abbrev pub end_vpn : Segment → ℕ
end_vpn segment = sub64 (segment.end_vaddr) 1 / page_size + 1

-- The entry of a page that must not be mapped yet.
unfoldable pub free_entry : Mapping → ℕ → Frames → Run (ℕ × Frames)
unfolding load find_entry
free_entry m vpn f = do
  (entry, f') ← find_entry m vpn f
  if load (f'.memory) entry 8 == 0 then ok (entry, f') else panic

-- The loop of `mapLinearSegment`, with `rounds` pages from `vpn` on left to map.
unfoldable pub map_linear : Mapping → ℕ → ℕ → ℕ → Frames → Run Frames
unfolding free_entry
map_linear self flags zero vpn f = ok f
map_linear self flags (suc rounds) vpn f = do
  (entry, f') ← free_entry self vpn f
  let word = bit_or (bit_or (shift64 (sub64 vpn kernel_page_offset) (2 ^ 10)) flags) valid
  map_linear self flags rounds (vpn + 1) (record f' { memory = store (f'.memory) entry 8 word })

unfoldable pub map_linear_segment : Mapping → Segment → Frames → Run Frames
unfolding map_linear
map_linear_segment self segment f =
    map_linear self (segment.flags) (end_vpn segment - start_vpn segment) (start_vpn segment) f
