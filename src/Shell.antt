-- ===== src/Shell.antt =====
-- user/sh.c: the shell's line editor and its built-in commands. `line` is the array of 256
-- characters, and what the array is followed by. The program's effects are a list of actions, in
-- order; a string that is handed to a system call is the list of its characters.
pub mod Editor
pub mod Commands
pub mod Meaning
mod Tests
use moonix.Base.{
  ℕ, zero, suc, ◌+◌, ◌-◌, Bool, true, false, ◌&&◌, ◌||◌, not, List, [], ◌∷◌, ◌++◌, update, length,
  ltb, leb, ◌==◌, if◌then◌else◌,
}
use moonix.Files.{same_name}

abbrev pub lf : ℕ
lf = 0x0a

abbrev pub cr : ℕ
cr = 0x0d

abbrev pub bs : ℕ
bs = 0x08

abbrev pub dl : ℕ
dl = 0x7f

abbrev pub ctrlc : ℕ
ctrlc = 0x03

abbrev pub is_blank : ℕ → Bool
is_blank c = c == 32 || c == 9

pub data Action : Type 0 where
  putchar : ℕ → Action
  newline : Action
  prompt : Action
  need_path : Action
  sys_shut : Action
  sys_lsdir : List ℕ → ℕ → Action
  sys_cddir : List ℕ → ℕ → Action
  sys_pwd : ℕ → Action
  sys_exec : List ℕ → ℕ → Action

pub record Shell : Type 0 where
  pub line : ℕ → ℕ
  pub line_count : ℕ

-- `isEmpty`, with `rounds` characters from `i` on left to look at.
unfoldable pub is_empty_from : (ℕ → ℕ) → ℕ → ℕ → Bool
is_empty_from line zero i = true
is_empty_from line (suc rounds) i =
    let rest = is_empty_from line rounds (i + 1) in
    if line i == 0 then true else if is_blank (line i) then rest else false

-- `empty`
unfoldable pub empty : (ℕ → ℕ) → ℕ → ℕ → ℕ
empty line zero = line
empty line (suc n) = update (empty line n) n 0

-- `while(*line == ' ' || *line == '\t') line ++`
unfoldable pub skip_blanks : ℕ → (ℕ → ℕ) → ℕ → ℕ
skip_blanks zero line i = i
skip_blanks (suc fuel) line i =
    let rest = skip_blanks fuel line (i + 1) in if is_blank (line i) then rest else i

-- The string at `line + i`.
unfoldable pub text : ℕ → (ℕ → ℕ) → ℕ → List ℕ
text zero line i = []
text (suc fuel) line i =
    let rest = text fuel line (i + 1) in if line i == 0 then [] else line i ∷ rest

abbrev pub ends_word : ℕ → Bool
ends_word c = is_blank c || c == 0

-- The built-in commands for the string at `line + i`, and whether it is one.
unfoldable pub is_build_in : (ℕ → ℕ) → ℕ → ℕ → Bool × List Action
is_build_in line i fd =
    let command = text 256 line i in
    let len = length command in
    let j = skip_blanks 256 line (i + 3) in
    let argument = text 256 line j in
    if same_name (115 ∷ 104 ∷ 117 ∷ 116 ∷ 100 ∷ 111 ∷ 119 ∷ 110 ∷ []) command
    then (true, sys_shut ∷ [])
    else if leb 2 len && line i == 108 && line (i + 1) == 115 && ends_word (line (i + 2))
    then (true, sys_lsdir argument fd ∷ [])
    else if leb 2 len && line i == 99 && line (i + 1) == 100 && ends_word (line (i + 2))
    then (true, if line j == 0 then need_path ∷ [] else sys_cddir argument fd ∷ [])
    else if leb 3 len
        && line i == 112
        && line (i + 1) == 119
        && line (i + 2) == 100
        && ends_word (line (i + 3))
    then (true, sys_pwd fd ∷ [])
    else (false, [])

-- The command on the line.
unfoldable pub execute : (ℕ → ℕ) → ℕ → List Action
execute line fd =
    let i = skip_blanks 256 line 0 in
    let (known, actions) = is_build_in line i fd in
    if known then actions else sys_exec (text 256 line i) fd ∷ []

-- `case LF: case CR:`
unfoldable pub enter : ℕ → Shell → Shell × List Action
enter fd s = if is_empty_from (s.line) 256 0 then (s, newline ∷ prompt ∷ []) else (
  record { line = empty (s.line) 256; line_count = 0 },
  newline ∷ execute (s.line) fd ++ prompt ∷ [],
)

-- `case DL:`
unfoldable pub delete : Shell → Shell × List Action
delete s =
    if ltb 0 (s.line_count)
    then (
      record { line = update (s.line) (s.line_count - 1) 0; line_count = s.line_count - 1 },
      putchar bs ∷ putchar 32 ∷ putchar bs ∷ [],
    )
    else (s, [])

-- `default:`
unfoldable pub insert : ℕ → Shell → Shell × List Action
insert c s =
    if ltb (s.line_count) 255
    then (
      record { line = update (s.line) (s.line_count) c; line_count = s.line_count + 1 },
      putchar c ∷ [],
    )
    else (s, [])

-- One round of the loop of `main`, for the key `c`.
unfoldable pub key : ℕ → ℕ → Shell → Shell × List Action
key fd c s =
    if c == lf || c == cr
    then enter fd s
    else if c == ctrlc
    then (record { line = empty (s.line) 256; line_count = 0 }, newline ∷ prompt ∷ [])
    else if c == dl
    then delete s
    else insert c s

-- A sequence of keys.
unfoldable pub keys : ℕ → List ℕ → Shell → Shell × List Action
keys fd [] s = (s, [])
keys fd (c ∷ cs) s =
    let (s1, actions) = key fd c s in let (s2, rest) = keys fd cs s1 in (s2, actions ++ rest)
