-- ===== src/Elf/Flags.antt =====
-- The permissions of a segment (kernel/elf.c) and what they say bit by bit.
use moonix.Base.{ℕ, zero, suc, ◌/◌, ◌%◌, ◌<◌, ◌≡◌, refl, arith}
use moonix.Elf.{convert_elf_flags}

-- The three permissions of the program header become those of the page, and the page is valid
-- and open to the user.
pub convert_elf_flags-lem :
    (flags : ℕ)
    → flags < 8
    → let ma = convert_elf_flags flags in
      (ma % 2 ≡ 1)
      × (ma / 16 ≡ 1)
      × (ma / 8 % 2 ≡ flags % 2)
      × (ma / 4 % 2 ≡ flags / 2 % 2)
      × (ma / 2 % 2 ≡ flags / 4)
unfolding convert_elf_flags
convert_elf_flags-lem zero h = (refl, refl, refl, refl, refl)
convert_elf_flags-lem (suc zero) h = (refl, refl, refl, refl, refl)
convert_elf_flags-lem (suc (suc zero)) h = (refl, refl, refl, refl, refl)
convert_elf_flags-lem (suc (suc (suc zero))) h = (refl, refl, refl, refl, refl)
convert_elf_flags-lem (suc (suc (suc (suc zero)))) h = (refl, refl, refl, refl, refl)
convert_elf_flags-lem (suc (suc (suc (suc (suc zero))))) h = (refl, refl, refl, refl, refl)
convert_elf_flags-lem (suc (suc (suc (suc (suc (suc zero)))))) h = (refl, refl, refl, refl, refl)
convert_elf_flags-lem (suc (suc (suc (suc (suc (suc (suc zero))))))) h =
    (refl, refl, refl, refl, refl)
convert_elf_flags-lem (suc (suc (suc (suc (suc (suc (suc (suc flags)))))))) h = absurd (omega arith)
