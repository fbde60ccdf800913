-- ===== src/Shell/Editor.antt =====
-- The line that the keys of user/sh.c build, as a list of characters.
use moonix.Base.{
  ℕ, zero, suc, ◌+◌, ◌-◌, ◌<◌, ◌≡◌, ◌≢◌, refl, ap, arith, inl, inr, Bool, true, false, ◌||◌,
  Bool-cases, List, [], ◌∷◌, ◌++◌, length, length-append, update, ltb, ◌==◌, if◌then◌else◌,
}
use moonix.Shell.{
  Shell, Action, putchar, newline, prompt, lf, cr, bs, dl, ctrlc, empty, enter, delete, insert, key,
  keys,
}
use moonix.Shell.Commands.{nth, strip, meaning, IsSolid, Holds, is_empty_from-Holds}
use moonix.Shell.Meaning.{execute-meaning}

-- Without the last character.
abbrev pub init : List ℕ → List ℕ
init [] = []
init (c ∷ []) = []
init (c ∷ d ∷ t) = c ∷ init (d ∷ t)

abbrev pub is_enter : ℕ → Bool
is_enter c = c == lf || c == cr

-- The text after a key.
abbrev pub edit : ℕ → List ℕ → List ℕ
edit c t =
    if is_enter c
    then (if length (strip t) == 0 then t else [])
    else if c == ctrlc
    then []
    else if c == dl
    then init t
    else if ltb (length t) 255
    then t ++ c ∷ []
    else t

-- What is done at a key.
abbrev pub answer : ℕ → ℕ → List ℕ → List Action
answer fd c t =
    if is_enter c
    then newline ∷ (if length (strip t) == 0 then [] else meaning fd (strip t)) ++ prompt ∷ []
    else if c == ctrlc
    then newline ∷ prompt ∷ []
    else if c == dl
    then (if length t == 0 then [] else putchar bs ∷ putchar 32 ∷ putchar bs ∷ [])
    else if ltb (length t) 255
    then putchar c ∷ []
    else []

-- The shell's line holds the text, with zeros behind it.
pub record Shows (s : Shell) (t : List ℕ) : Type 0 where
  pub count : s.line_count ≡ length t
  pub holds : Holds (s.line) 0 t

abbrev pub blank_shell : Shell
blank_shell = record { line = λ i. 0; line_count = 0 }

pub blank-Shows : Shows blank_shell []
blank-Shows = record {
  count = refl;
  holds = record { ends = omega arith; solid = tt; chars = λ i h. refl };
}

nth-snoc : (t : List ℕ) (c i : ℕ) → nth (t ++ c ∷ []) i ≡ (if length t == i then c else nth t i)
nth-snoc [] c zero = refl
nth-snoc [] c (suc i) = ground arith
nth-snoc (d ∷ t) c zero = ground arith
nth-snoc (d ∷ t) c (suc i) = ground (arith, nth-snoc t c i)

snoc-IsSolid : (t : List ℕ) (c : ℕ) → IsSolid t → c ≢ 0 → IsSolid (t ++ c ∷ [])
snoc-IsSolid [] c h some_char = (some_char, tt)
snoc-IsSolid (d ∷ t) c h some_char = (h.0, snoc-IsSolid t c (h.1) some_char)

length-init : (t : List ℕ) → length (init t) ≡ length t - 1
length-init [] = refl
length-init (c ∷ []) = refl
length-init (c ∷ d ∷ t) = omega (arith, length-init (d ∷ t))

nth-init : (t : List ℕ) (i : ℕ) → nth (init t) i ≡ (if length t - 1 == i then 0 else nth t i)
nth-init [] i = ground arith
nth-init (c ∷ []) zero = refl
nth-init (c ∷ []) (suc i) = ground arith
nth-init (c ∷ d ∷ t) zero = ground arith
nth-init (c ∷ d ∷ t) (suc i) = ground (arith, nth-init (d ∷ t) i)

init-IsSolid : (t : List ℕ) → IsSolid t → IsSolid (init t)
init-IsSolid [] h = tt
init-IsSolid (c ∷ []) h = tt
init-IsSolid (c ∷ d ∷ t) h = (h.0, init-IsSolid (d ∷ t) (h.1))

empty-at : (line : ℕ → ℕ) (n i : ℕ) → i < n → empty line n i ≡ 0
unfolding empty
empty-at line zero i h = absurd (omega arith)
empty-at line (suc n) i h = ground (arith, empty-at line n i)

cleared-Shows : (s : Shell) → Shows (record { line = empty (s.line) 256; line_count = 0 }) []
cleared-Shows s = record {
  count = refl;
  holds = record { ends = omega arith; solid = tt; chars = λ i h. empty-at (s.line) 256 (0 + i) h };
}

-- A character is put behind the text.
put-Shows :
    (c : ℕ) (s : Shell) (t : List ℕ)
    → c ≢ 0
    → Shows s t
    → length t < 255
    → Shows
        (record { line = update (s.line) (s.line_count) c; line_count = s.line_count + 1 })
        (t ++ c ∷ [])
put-Shows c s t some_char v room =
    let longer = length-append {0} t (c ∷ []) in
    let count = v.count in
    record {
      count = omega arith;
      holds = record {
        ends = omega arith;
        solid = snoc-IsSolid t c ((v.holds).solid) some_char;
        chars = λ i h. let old = (v.holds).chars i h in ground (arith, nth-snoc t c i);
      };
    }

-- The last character is taken back.
back-Shows :
    (s : Shell) (t : List ℕ)
    → Shows s t
    → 0 < length t
    → Shows
        (record { line = update (s.line) (s.line_count - 1) 0; line_count = s.line_count - 1 })
        (init t)
back-Shows s t v some_text =
    let shorter = length-init t in
    let count = v.count in
    let ends = (v.holds).ends in
    record {
      count = omega arith;
      holds = record {
        ends = omega arith;
        solid = init-IsSolid t ((v.holds).solid);
        chars = λ i h. let old = (v.holds).chars i h in ground (arith, nth-init t i);
      };
    }

enter-Shows :
    (fd : ℕ) (s : Shell) (t : List ℕ)
    → Shows s t
    → length t < 255
    → Shows (enter fd s).0 (if length (strip t) == 0 then t else [])
      × ((enter fd s).1
          ≡ newline ∷ (if length (strip t) == 0 then [] else meaning fd (strip t)) ++ prompt ∷ [])
unfolding enter
enter-Shows fd s t v room =
    rw
      (
        is_empty_from-Holds 256 (s.line) 0 t (v.holds) (omega arith),
        execute-meaning (s.line) fd t (v.holds) room,
      )
      (elim (Bool-cases (length (strip t) == 0)) [
        | inl is_blank_line ↦ rw is_blank_line (v, refl)
        | inr some_command ↦ rw some_command (cleared-Shows s, refl)
      ])

delete-Shows :
    (s : Shell) (t : List ℕ)
    → Shows s t
    → Shows (delete s).0 (init t)
      × ((delete s).1 ≡ (if length t == 0 then [] else putchar bs ∷ putchar 32 ∷ putchar bs ∷ []))
unfolding delete
delete-Shows s [] v =
    let count = v.count in
    let no_text : ltb 0 (s.line_count) ≡ false = ground arith in rw no_text (v, refl)
delete-Shows s (c ∷ t) v =
    let count = v.count in
    let some_text : ltb 0 (s.line_count) ≡ true = ground arith in
    let not_empty : length (c ∷ t) == 0 ≡ false = ground arith in
    rw (some_text, not_empty) (back-Shows s (c ∷ t) v (omega arith), refl)

insert-Shows :
    (c : ℕ) (s : Shell) (t : List ℕ)
    → c ≢ 0
    → Shows s t
    → Shows (insert c s).0 (if ltb (length t) 255 then t ++ c ∷ [] else t)
      × ((insert c s).1 ≡ (if ltb (length t) 255 then putchar c ∷ [] else []))
unfolding insert
insert-Shows c s t some_char v =
    let count = v.count in
    let same : ltb (s.line_count) 255 ≡ ltb (length t) 255 = ap (λ n. ltb n 255) count in
    rw same (elim (Bool-cases (ltb (length t) 255)) [
      | inl room ↦ rw room (put-Shows c s t some_char v (ground arith), refl)
      | inr full ↦ rw full (v, refl)
    ])

-- For a key that is not 0, and a text of at most 254 characters when the key is Enter:
-- the line shows the edited text, and what is done is what the text says.
pub key-Shows :
    (fd c : ℕ) (s : Shell) (t : List ℕ)
    → c ≢ 0
    → (is_enter c ≡ true → length t < 255)
    → Shows s t
    → Shows (key fd c s).0 (edit c t) × ((key fd c s).1 ≡ answer fd c t)
unfolding key
key-Shows fd c s t some_char room v = elim (Bool-cases (is_enter c)) as (λ _. Goal) [
  | inl is_e ↦ rw is_e (enter-Shows fd s t v (room is_e))
  | inr no_e ↦ elim (Bool-cases (c == ctrlc)) as (λ _. Goal) [
    | inl is_c ↦ rw (no_e, is_c) (cleared-Shows s, refl)
    | inr no_c ↦ elim (Bool-cases (c == dl)) as (λ _. Goal) [
      | inl is_d ↦ rw (no_e, no_c, is_d) (delete-Shows s t v)
      | inr no_d ↦ rw (no_e, no_c, no_d) (insert-Shows c s t some_char v)
    ]
  ]
]
  where
    Goal : Type 0
    Goal = Shows (key fd c s).0 (edit c t) × ((key fd c s).1 ≡ answer fd c t)

-- The text after a sequence of keys, and what is done at them.
abbrev pub edits : List ℕ → List ℕ → List ℕ
edits [] t = t
edits (c ∷ cs) t = edits cs (edit c t)

abbrev pub answers : ℕ → List ℕ → List ℕ → List Action
answers fd [] t = []
answers fd (c ∷ cs) t = answer fd c t ++ answers fd cs (edit c t)

-- No key is 0, and no line is entered that has 255 characters.
abbrev pub Fit : List ℕ → List ℕ → Type 0
Fit [] t = Unit
Fit (c ∷ cs) t = (c ≢ 0) × (is_enter c ≡ true → length t < 255) × Fit cs (edit c t)

-- From a state in which `line` holds a text and zeros from there up to its 256 characters, and
-- `lineCount` is the text's length, and for a sequence of keys of which none is 0 and where no
-- line of 255 characters is entered: the shell does what the list of characters says, key by
-- key, and `line` holds the text that the keys leave, with zeros behind it.
pub keys-Shows :
    (fd : ℕ) (cs : List ℕ) (s : Shell) (t : List ℕ)
    → Fit cs t
    → Shows s t
    → Shows (keys fd cs s).0 (edits cs t) × ((keys fd cs s).1 ≡ answers fd cs t)
unfolding keys
keys-Shows fd [] s t fit v = (v, refl)
keys-Shows fd (c ∷ cs) s t fit v =
    let (shown, done) = key-Shows fd c s t (fit.0) (fit.1) v in
    let (later, rest) = keys-Shows fd cs (key fd c s).0 (edit c t) (fit.2) shown in
    (later, rw (done, rest) refl)
