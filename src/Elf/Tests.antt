-- ===== src/Elf/Tests.antt =====
-- The permissions of a code segment.
use moonix.Base.{◌≡◌, refl}
use moonix.Elf.{convert_elf_flags}

read_and_execute : convert_elf_flags 5 ≡ 27
unfolding convert_elf_flags
read_and_execute = refl
