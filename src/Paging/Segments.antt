-- ===== src/Paging/Segments.antt =====
-- kernel/mapping.c: segments with memory of their own, and the address space of the kernel.
use Prim.Native.Nat.{bit_or}
use moonix.Base.{ℕ, zero, suc, ◌+◌, ◌-◌, ◌*◌, ◌/◌, ◌^◌, Run, ok, ◌>>=◌, update, leb, if◌then◌else◌}
use moonix.Frames.{Frames, page_size, kernel_map_offset, alloc_frame}
use moonix.Paging.{
  Segment, Mapping, store, start_vpn, end_vpn, free_entry, map_linear_segment, new_mapping, valid,
  readable, writable, executable, memory_end_paddr,
}

-- The loop of `mapFramedSegment`.
unfoldable pub map_framed : Mapping → ℕ → ℕ → ℕ → Frames → Run Frames
unfolding free_entry store
map_framed m flags zero vpn f = ok f
map_framed m flags (suc rounds) vpn f = do
  (entry, f1) ← free_entry m vpn f
  (addr, f2) ← alloc_frame f1
  let word = bit_or (bit_or (addr / 4) flags) valid
  map_framed m flags rounds (vpn + 1) (record f2 { memory = store (f2.memory) entry 8 word })

unfoldable pub map_framed_segment : Mapping → Segment → Frames → Run Frames
unfolding map_framed
map_framed_segment m segment f =
    map_framed m (segment.flags) (end_vpn segment - start_vpn segment) (start_vpn segment) f

-- `for(i = 0; i < n; i ++) dst[i] = src[i]`
unfoldable pub copy : (ℕ → ℕ) → ℕ → ℕ → ℕ → ℕ → ℕ
copy memory dst src zero = memory
copy memory dst src (suc n) =
    let before = copy memory dst src n in update before (dst + n) (before (src + n))

-- `for(i = from; i < from + n; i ++) dst[i] = 0`
unfoldable pub clear_from : (ℕ → ℕ) → ℕ → ℕ → ℕ → ℕ → ℕ
clear_from memory dst from zero = memory
clear_from memory dst from (suc n) = update (clear_from memory dst from n) (dst + (from + n)) 0

-- A page gets the next bytes of the data, and zeros behind their end.
unfoldable pub fill_page : (ℕ → ℕ) → ℕ → ℕ → ℕ → ℕ → ℕ
unfolding copy clear_from
fill_page memory dst s l =
    if leb page_size l
    then copy memory dst s page_size
    else clear_from (copy memory dst s l) dst l (page_size - l)

-- The loop of `mapFramedAndCopy`, with `l` bytes from `s` on left to copy.
unfoldable pub map_and_copy : Mapping → ℕ → ℕ → ℕ → ℕ → ℕ → Frames → Run Frames
unfolding free_entry store fill_page
map_and_copy m flags zero vpn s l f = ok f
map_and_copy m flags (suc rounds) vpn s l f = do
  (entry, f1) ← free_entry m vpn f
  (addr, f2) ← alloc_frame f1
  let word = bit_or (bit_or (addr / 4) flags) valid
  let mapped = store (f2.memory) entry 8 word
  let l' = if leb page_size l then l - page_size else 0
  map_and_copy m flags rounds (vpn + 1) (s + page_size) l'
      (record f2 { memory = fill_page mapped addr s l })

unfoldable pub map_framed_and_copy : Mapping → Segment → ℕ → ℕ → Frames → Run Frames
unfolding map_and_copy
map_framed_and_copy m segment bytes length f =
    map_and_copy m (segment.flags) (end_vpn segment - start_vpn segment) (start_vpn segment) bytes
      length f

-- The addresses that the linker script defines.
pub record Symbols : Type 0 where
  pub text_start : ℕ
  pub rodata_start : ℕ
  pub data_start : ℕ
  pub bss_start : ℕ
  pub kernel_end : ℕ

-- `1L | flags` of the permissions that are given.
abbrev segment_of : ℕ → ℕ → ℕ → Segment
segment_of from to permissions = record {
  start_vaddr = from;
  end_vaddr = to;
  flags = bit_or valid permissions;
}

unfoldable pub new_kernel_mapping : Symbols → Frames → Run (Mapping × Frames)
unfolding new_mapping map_linear_segment
new_kernel_mapping k f = do
  (m, f0) ← new_mapping f
  f1 ←
      map_linear_segment m (segment_of (k.text_start) (k.rodata_start) (bit_or readable executable))
        f0
  f2 ← map_linear_segment m (segment_of (k.rodata_start) (k.data_start) readable) f1
  f3 ← map_linear_segment m (segment_of (k.data_start) (k.bss_start) (bit_or readable writable)) f2
  f4 ← map_linear_segment m (segment_of (k.bss_start) (k.kernel_end) (bit_or readable writable)) f3
  f5 ←
      map_linear_segment m
        (segment_of (k.kernel_end) (memory_end_paddr + kernel_map_offset)
          (bit_or readable writable))
        f4
  ok (m, f5)

abbrev device : ℕ → ℕ → Segment
device from to =
    segment_of (from + kernel_map_offset) (to + kernel_map_offset) (bit_or readable writable)

unfoldable pub map_ext_interrupt_area : Mapping → Frames → Run Frames
unfolding map_linear_segment
map_ext_interrupt_area m f = do
  f1 ← map_linear_segment m (device 0x0c00_0000 0x0c00_1000) f
  f2 ← map_linear_segment m (device 0x0c00_2000 0x0c00_3000) f1
  f3 ← map_linear_segment m (device 0x0c20_1000 0x0c20_2000) f2
  map_linear_segment m (device 0x1000_0000 0x1000_1000) f3

-- `satp` of a mapping.
unfoldable pub activate_mapping : Mapping → ℕ
activate_mapping self = bit_or (self.root_ppn) (8 * 2 ^ 60)

unfoldable pub map_kernel : Symbols → Frames → Run (ℕ × Frames)
unfolding new_kernel_mapping map_ext_interrupt_area activate_mapping
map_kernel k f = do
  (m, f1) ← new_kernel_mapping k f
  f2 ← map_ext_interrupt_area m f1
  ok (activate_mapping m, f2)
