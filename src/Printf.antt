-- ===== src/Printf.antt =====
-- kernel/printf.c: formatted output; user/io.c has the same functions over a system call.
-- What is written is a list of characters, the first one in front. An `int` is its 32-bit word.
-- A variadic argument list is a function from the number of the argument to its word, and
-- `fuel` bounds how far the format and the strings are read.
pub mod Numbers
pub mod Format
mod Tests
use moonix.Base.{
  ℕ, zero, suc, ◌+◌, ◌-◌, ◌*◌, ◌/◌, ◌%◌, ◌^◌, Bool, true, false, ◌&&◌, List, [], ◌∷◌, ◌++◌, Run, ok,
  panic, out_of_fuel, ◌>>=◌, ltb, leb, ◌==◌, if◌then◌else◌,
}

-- `digits[d]`: the characters of 0 to 9 and of a to f.
unfoldable pub digit : ℕ → ℕ
digit d = if ltb d 10 then 48 + d else 87 + d

-- The loop that fills `buf`, the last digit first.
unfoldable pub fill_buf : ℕ → ℕ → ℕ → Run (List ℕ)
unfolding digit
fill_buf zero base x = out_of_fuel
fill_buf (suc fuel) base x =
    let rest = fill_buf fuel base (x / base) in
    if x / base == 0
    then ok (digit (x % base) ∷ [])
    else (rest >>= λ buf. ok (digit (x % base) ∷ buf))

-- `while(--i >= 0) consolePutchar(buf[i])`
unfoldable pub put_back : List ℕ → List ℕ
put_back [] = []
put_back (c ∷ buf) = put_back buf ++ c ∷ []

-- A word has at most 32 digits, and 10 in the bases 10 and 16, so `buf` of 16 is large enough.
unfoldable pub printint : ℕ → ℕ → Bool → Run (List ℕ)
unfolding fill_buf put_back
printint xx base sign =
    let negative = sign && leb (2 ^ 31) xx in
    let x = if negative then (2 ^ 32 - xx) % 2 ^ 32 else xx in
    fill_buf 33 base x >>= λ buf. ok (if negative then 45 ∷ put_back buf else put_back buf)

-- The loop of `printptr`, with `rounds` digits left.
unfoldable pub put_nibbles : ℕ → ℕ → List ℕ
unfolding digit
put_nibbles zero x = []
put_nibbles (suc rounds) x = digit (x / 2 ^ 60) ∷ put_nibbles rounds (x * 16 % 2 ^ 64)

-- `0x` and 16 digits.
unfoldable pub printptr : ℕ → List ℕ
unfolding put_nibbles
printptr x = 48 ∷ 120 ∷ put_nibbles 16 x
