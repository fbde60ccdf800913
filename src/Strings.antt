-- ===== src/Strings.antt =====
-- kernel/string.c, and user/string.c, which has the same two functions: strings are bytes in
-- memory up to a byte that is 0. `fuel` bounds how far a string is read; a C `int` counts the
-- bytes, which has no width here: a string in the 128 MB of memory is shorter than 2 ^ 31.
pub mod Compare
mod Tests
use moonix.Base.{ℕ, zero, suc, ◌+◌, Run, ok, out_of_fuel, ◌>>=◌, ◌==◌, if◌then◌else◌, not}

-- The loop of `strlen`, with `num` bytes counted.
unfoldable pub count : ℕ → (ℕ → ℕ) → ℕ → ℕ → Run ℕ
count zero memory str num = out_of_fuel
count (suc fuel) memory str num =
    let rest = count fuel memory (str + 1) (num + 1) in if memory str == 0 then ok num else rest

unfoldable pub strlen : ℕ → (ℕ → ℕ) → ℕ → Run ℕ
unfolding count
strlen fuel memory str = count fuel memory str 0

-- The loop of `strcmp`, with `rounds` bytes from `i` on left to compare.
unfoldable pub differ : (ℕ → ℕ) → ℕ → ℕ → ℕ → ℕ → ℕ
differ memory str1 str2 zero i = 0
differ memory str1 str2 (suc rounds) i =
    let rest = differ memory str1 str2 rounds (i + 1) in
    if memory (str1 + i) == memory (str2 + i) then rest else 1

unfoldable pub strcmp : ℕ → (ℕ → ℕ) → ℕ → ℕ → Run ℕ
unfolding differ
strcmp fuel memory str1 str2 = do
  len1 ← strlen fuel memory str1
  len2 ← strlen fuel memory str2
  if len1 == len2 then ok (differ memory str1 str2 len1 0) else ok 1
