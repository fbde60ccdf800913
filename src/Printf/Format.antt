-- ===== src/Printf/Format.antt =====
-- kernel/printf.c: the loop of `printf` over its format.
use moonix.Base.{
  ℕ, zero, suc, ◌+◌, ◌%◌, ◌^◌, true, List, [], ◌∷◌, ◌++◌, Run, ok, panic, out_of_fuel, ◌>>=◌, ◌==◌,
  if◌then◌else◌,
}
use moonix.Printf.{printint, printptr}

-- `for (; *s; s++) consolePutchar(*s)`
unfoldable pub puts : ℕ → (ℕ → ℕ) → ℕ → Run (List ℕ)
puts zero memory s = out_of_fuel
puts (suc fuel) memory s =
    let rest = puts fuel memory (s + 1) in
    if memory s == 0 then ok [] else (rest >>= λ out. ok (memory s ∷ out))

-- What `%c` writes for the argument `arg`, and whether it takes one; a null string is "(null)".
unfoldable pub conversion : ℕ → (ℕ → ℕ) → ℕ → ℕ → Run (List ℕ × ℕ)
unfolding puts
conversion fuel memory c arg =
    if c == 100
    then (printint (arg % 2 ^ 32) 10 true >>= λ out. ok (out, 1))
    else if c == 120
    then (printint (arg % 2 ^ 32) 16 true >>= λ out. ok (out, 1))
    else if c == 112
    then ok (printptr arg, 1)
    else if c == 115
    then (if arg == 0
        then ok (40 ∷ 110 ∷ 117 ∷ 108 ∷ 108 ∷ 41 ∷ [], 1)
        else (puts fuel memory arg >>= λ out. ok (out, 1)))
    else if c == 37
    then ok (37 ∷ [], 0)
    else ok (37 ∷ c ∷ [], 0)

-- The loop from `fmt[i]` on, with `n` arguments taken.
unfoldable pub format : ℕ → (ℕ → ℕ) → ℕ → (ℕ → ℕ) → ℕ → Run (List ℕ)
unfolding conversion
format zero memory fmt args n = out_of_fuel
format (suc fuel) memory fmt args n =
    let c = memory fmt in
    let d = memory (fmt + 1) in
    let plain = format fuel memory (fmt + 1) args n in
    let converted = (do
      (out, taken) ← conversion fuel memory d (args n)
      rest ← format fuel memory (fmt + 2) args (n + taken)
      ok (out ++ rest)) in
    if c == 0
    then ok []
    else if c == 37
    then (if d == 0 then ok [] else converted)
    else (plain >>= λ rest. ok (c ∷ rest))

unfoldable pub printf : ℕ → (ℕ → ℕ) → ℕ → (ℕ → ℕ) → Run (List ℕ)
unfolding format
printf fuel memory fmt args = if fmt == 0 then panic else format fuel memory fmt args 0
