-- ===== src/Elf.antt =====
-- kernel/elf.c and kernel/elf.h: the address space of a user program from its ELF file, which
-- lies at the physical address `elf`. `load` reads the fields of the headers at their offsets.
pub mod Flags
mod Tests
use Prim.Native.Nat.{bit_and, bit_or}
use moonix.Base.{ℕ, zero, suc, ◌+◌, ◌*◌, ◌^◌, ◌%◌, Run, ok, panic, ◌>>=◌, ◌==◌, if◌then◌else◌}
use moonix.Frames.{Frames}
use moonix.Paging.{load, valid, user, readable, writable, executable, Mapping, Segment}
use moonix.Paging.Segments.{Symbols, new_kernel_mapping, map_framed_and_copy}

abbrev pub elf_magic : ℕ
elf_magic = 0x464c457f

abbrev pub elf_prog_load : ℕ
elf_prog_load = 1

abbrev pub elf_prog_flag_exec : ℕ
elf_prog_flag_exec = 1

abbrev pub elf_prog_flag_write : ℕ
elf_prog_flag_write = 2

abbrev pub elf_prog_flag_read : ℕ
elf_prog_flag_read = 4

-- `if(flags & flag) ma |= bit`
abbrev also : ℕ → ℕ → ℕ → ℕ → ℕ
also flags flag bit ma = if bit_and flags flag == 0 then ma else bit_or ma bit

unfoldable pub convert_elf_flags : ℕ → ℕ
convert_elf_flags flags =
    let ma0 = bit_or 1 user in
    let ma1 = also flags elf_prog_flag_exec executable ma0 in
    let ma2 = also flags elf_prog_flag_write writable ma1 in
    also flags elf_prog_flag_read readable ma2

pub record ElfHeader : Type 0 where
  pub magic : ℕ
  pub phoff : ℕ
  pub phnum : ℕ

pub record ProgHeader : Type 0 where
  pub kind : ℕ
  pub flags : ℕ
  pub off : ℕ
  pub vaddr : ℕ
  pub filesz : ℕ
  pub memsz : ℕ

unfoldable pub elf_header : (ℕ → ℕ) → ℕ → ElfHeader
elf_header memory elf = record {
  magic = load memory elf 4;
  phoff = load memory (elf + 32) 8;
  phnum = load memory (elf + 56) 2;
}

unfoldable pub prog_header : (ℕ → ℕ) → ℕ → ProgHeader
prog_header memory offset = record {
  kind = load memory offset 4;
  flags = load memory (offset + 4) 4;
  off = load memory (offset + 8) 8;
  vaddr = load memory (offset + 16) 8;
  filesz = load memory (offset + 32) 8;
  memsz = load memory (offset + 40) 8;
}

abbrev pub prog_header_size : ℕ
prog_header_size = 56

-- One program header: its segment is mapped if it is to be loaded.
unfoldable pub load_segment : Mapping → ℕ → ProgHeader → Frames → Run Frames
unfolding convert_elf_flags
load_segment m elf p f =
    let vh_end = (p.vaddr + p.memsz) % 2 ^ 64 in
    let segment : Segment = record {
      start_vaddr = p.vaddr;
      end_vaddr = vh_end;
      flags = convert_elf_flags p.flags;
    } in
    if p.kind == elf_prog_load
    then map_framed_and_copy m segment ((elf + p.off) % 2 ^ 64) p.filesz f
    else ok f

-- The loop of `newUserMapping`, with `rounds` headers from `offset` on left.
unfoldable pub load_segments : Mapping → ℕ → ℕ → ℕ → Frames → Run Frames
unfolding load_segment prog_header
load_segments m elf zero offset f = ok f
load_segments m elf (suc rounds) offset f = do
  f' ← load_segment m elf (prog_header f.memory offset) f
  load_segments m elf rounds (offset + prog_header_size) f'

unfoldable pub new_user_mapping : Symbols → ℕ → Frames → Run (Mapping × Frames)
unfolding load_segments elf_header
new_user_mapping k elf f = do
  (m, f1) ← new_kernel_mapping k f
  let header = elf_header f1.memory elf
  f2 ←
      if header.magic == elf_magic
      then load_segments m elf header.phnum (elf + header.phoff) f1
      else panic
  ok (m, f2)
