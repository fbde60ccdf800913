-- ===== src/Shell/Meaning.antt =====
-- What the command on a line of user/sh.c asks for.
use moonix.Base.{
  ℕ, zero, suc, ◌+◌, ◌≤◌, ◌<◌, ◌≡◌, ◌≢◌, refl, sym, arith, inl, inr, Bool, true, ◌&&◌, Bool-cases,
  List, [], ◌∷◌, length, leb, ◌==◌, if◌then◌else◌,
}
use moonix.Files.{same_name}
use moonix.Shell.{Action, sys_exec, ends_word, skip_blanks, text, is_build_in, execute}
use moonix.Shell.Commands.{
  drop, strip, starts_2, is_pwd, shutdown, meaning, length-drop, Holds, Holds-first, Holds-drop,
  Holds-tail, text-Holds, skip_blanks-Holds,
}

-- The test for a command of two characters.
word_2-Holds :
    (line : ℕ → ℕ) (i a b : ℕ) (t : List ℕ)
    → Holds line i t
    → i + length t < 255
    → b ≢ 0
    → leb 2 (length t) && line i == a && line (i + 1) == b && ends_word (line (i + 2))
      ≡ starts_2 a b t
word_2-Holds line i a b [] h room b_char = let first = Holds-first line i [] h in ground arith
word_2-Holds line i a b (c ∷ []) h room b_char = ground arith
word_2-Holds line i a b (c ∷ d ∷ t) h room b_char =
    let first = Holds-first line i (c ∷ d ∷ t) h in
    let second = h.chars 1 (omega arith) in
    let third = h.chars 2 (omega arith) in
    let long : leb 2 (length (c ∷ d ∷ t)) ≡ true = ground arith in
    rw (first, second, third, long) refl

-- The test for `pwd`.
pwd-Holds :
    (line : ℕ → ℕ) (i : ℕ) (t : List ℕ)
    → Holds line i t
    → i + length t < 255
    → leb 3 (length t)
        && line i == 112
        && line (i + 1) == 119
        && line (i + 2) == 100
        && ends_word (line (i + 3))
      ≡ is_pwd t
pwd-Holds line i [] h room = ground arith
pwd-Holds line i (c ∷ []) h room = ground arith
pwd-Holds line i (c ∷ d ∷ []) h room = ground arith
pwd-Holds line i (c ∷ d ∷ e ∷ t) h room =
    let first = Holds-first line i (c ∷ d ∷ e ∷ t) h in
    let second = h.chars 1 (omega arith) in
    let third = h.chars 2 (omega arith) in
    let fourth = h.chars 3 (omega arith) in
    let long : leb 3 (length (c ∷ d ∷ e ∷ t)) ≡ true = ground arith in
    rw (first, second, third, fourth, long) refl

starts_2-long : (a b : ℕ) (t : List ℕ) → b ≢ 0 → starts_2 a b t ≡ true → 2 ≤ length t
starts_2-long a b [] b_char e = ground arith
starts_2-long a b (c ∷ []) b_char e = ground arith
starts_2-long a b (c ∷ d ∷ t) b_char e = omega arith

-- The argument of a command of two characters.
argument-Holds :
    (line : ℕ → ℕ) (i : ℕ) (t : List ℕ)
    → Holds line i t
    → i + length t < 255
    → 2 ≤ length t
    → Holds line (skip_blanks 256 line (i + 3)) (strip (drop 3 t))
argument-Holds line i t h room long =
    let shorter = length-drop 3 t in
    skip_blanks-Holds 256 line (i + 3) (drop 3 t) (Holds-drop line i 3 t h (omega arith))
      (omega arith)

text-all : (line : ℕ → ℕ) (i : ℕ) (t : List ℕ) → Holds line i t → text 256 line i ≡ t
text-all line i t h = let ends = h.ends in text-Holds 256 line i t h (omega arith)

-- At the end of a string there is a 0, and only there.
at_end : (line : ℕ → ℕ) (i : ℕ) (t : List ℕ) → Holds line i t → line i == 0 ≡ (length t == 0)
at_end line i [] h = let e = Holds-first line i [] h in rw e refl
at_end line i (c ∷ t) h =
    let e = Holds-first line i (c ∷ t) h in let some_char = (h.solid).0 in rw e (ground arith)

-- A command that is not built in is started as a program.
abbrev outcome : ℕ → List ℕ → Bool × List Action → List Action
outcome fd t (known, actions) = if known then actions else sys_exec t fd ∷ []

is_build_in-Holds :
    (line : ℕ → ℕ) (i fd : ℕ) (t : List ℕ)
    → Holds line i t
    → i + length t < 255
    → outcome fd t (is_build_in line i fd) ≡ meaning fd t
unfolding is_build_in
is_build_in-Holds line i fd t h room =
    let argument = strip (drop 3 t) in
    let j = skip_blanks 256 line (i + 3) in
    rw
      (
        text-all line i t h,
        word_2-Holds line i 108 115 t h room (omega arith),
        word_2-Holds line i 99 100 t h room (omega arith),
        pwd-Holds line i t h room,
      )
      (elim (Bool-cases (same_name shutdown t)) [
        | inl is_shut ↦ rw is_shut refl
        | inr no_shut ↦ elim (Bool-cases (starts_2 108 115 t)) [
          | inl is_ls ↦
              let held =
                argument-Holds line i t h room (starts_2-long 108 115 t (omega arith) is_ls) in
              rw (no_shut, is_ls, text-all line j argument held) refl
          | inr no_ls ↦ elim (Bool-cases (starts_2 99 100 t)) [
            | inl is_cd ↦
                let held =
                  argument-Holds line i t h room (starts_2-long 99 100 t (omega arith) is_cd) in
                rw
                  (
                    no_shut,
                    no_ls,
                    is_cd,
                    text-all line j argument held,
                    at_end line j argument held,
                  )
                  refl
            | inr no_cd ↦ elim (Bool-cases (is_pwd t)) [
              | inl is_p ↦ rw (no_shut, no_ls, no_cd, is_p) refl
              | inr no_p ↦ rw (no_shut, no_ls, no_cd, no_p) refl
            ]
          ]
        ]
      ])

skip-length : (t : List ℕ) → length (strip t) ≤ length t
skip-length [] = omega arith
skip-length (c ∷ t) = ground (arith, skip-length t)

skip_blanks-moves :
    (fuel : ℕ) (line : ℕ → ℕ) (i : ℕ) (t : List ℕ)
    → Holds line i t
    → length t < fuel
    → skip_blanks fuel line i + length (strip t) ≡ i + length t
unfolding skip_blanks
skip_blanks-moves zero line i t h enough = absurd (omega arith)
skip_blanks-moves (suc fuel) line i [] h enough = let e = Holds-first line i [] h in rw e refl
skip_blanks-moves (suc fuel) line i (c ∷ t) h enough =
    let e = Holds-first line i (c ∷ t) h in
    let rest = skip_blanks-moves fuel line (i + 1) t (Holds-tail line i c t h) (omega arith) in
    rw e (ground arith)

-- For a line that holds a string of at most 254 characters and zeros behind it, what is
-- done is what the string asks for when the blanks in front are left out: one of
-- the built-in commands with its argument, or a program with its name and arguments.
pub execute-meaning :
    (line : ℕ → ℕ) (fd : ℕ) (t : List ℕ)
    → Holds line 0 t
    → length t < 255
    → execute line fd ≡ meaning fd (strip t)
unfolding execute
execute-meaning line fd t h room =
    let i = skip_blanks 256 line 0 in
    let held = skip_blanks-Holds 256 line 0 t h (omega arith) in
    let moves = skip_blanks-moves 256 line 0 t h (omega arith) in
    rw
      (
        sym (is_build_in-Holds line i fd (strip t) held (omega arith)),
        text-all line i (strip t) held,
      )
      refl
