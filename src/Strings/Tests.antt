-- ===== src/Strings/Tests.antt =====
-- Two strings in memory.
use moonix.Base.{ℕ, ◌≡◌, refl, arith, ◌↔◌, List, [], ◌∷◌, ok, Returns, ◌==◌, if◌then◌else◌}
use moonix.Strings.{strlen, strcmp}
use moonix.Strings.Compare.{IsString, stop, char, strcmp-equal}

-- "ls" at 16 and "cd" at 32.
abbrev bytes : ℕ → ℕ
bytes p =
    if p == 16
    then 108
    else if p == 17
    then 115
    else if p == 32
    then 99
    else if p == 33
    then 100
    else 0

abbrev ls_text : List ℕ
ls_text = 108 ∷ 115 ∷ []

abbrev cd_text : List ℕ
cd_text = 99 ∷ 100 ∷ []

ls-IsString : IsString bytes 16 ls_text
ls-IsString = char refl (omega arith) (char refl (omega arith) (stop refl))

cd-IsString : IsString bytes 32 cd_text
cd-IsString = char refl (omega arith) (char refl (omega arith) (stop refl))

other_command : strcmp 8 bytes 16 32 ≡ ok 1
unfolding strcmp strlen
other_command = refl

strcmp-equal_example : Returns (λ r. (r ≡ 0) ↔ (ls_text ≡ cd_text)) (strcmp 8 bytes 16 32)
strcmp-equal_example =
    strcmp-equal 8 bytes 16 32 ls_text cd_text ls-IsString cd-IsString (omega arith) (omega arith)
