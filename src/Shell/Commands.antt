-- ===== src/Shell/Commands.antt =====
-- The command on the line of user/sh.c, read from the text that the line holds.
use moonix.Base.{
  ℕ, zero, suc, ◌+◌, ◌-◌, ◌≤◌, ◌<◌, ◌≡◌, ◌≢◌, refl, sym, ap, ◌∙◌, arith, inl, inr, Bool, false,
  ◌&&◌, Bool-cases, List, [], ◌∷◌, length, ◌==◌, if◌then◌else◌,
}
use moonix.Files.{same_name}
use moonix.Shell.{
  Action, need_path, sys_shut, sys_lsdir, sys_cddir, sys_pwd, sys_exec, is_blank, ends_word,
  is_empty_from, skip_blanks, text,
}

-- The `i`-th character, and 0 behind the end.
abbrev pub nth : List ℕ → ℕ → ℕ
nth [] i = 0
nth (c ∷ t) zero = c
nth (c ∷ t) (suc i) = nth t i

abbrev pub drop : ℕ → List ℕ → List ℕ
drop zero t = t
drop (suc i) [] = []
drop (suc i) (c ∷ t) = drop i t

-- Without the blanks in front.
abbrev pub strip : List ℕ → List ℕ
strip [] = []
strip (c ∷ t) = if is_blank c then strip t else c ∷ t

-- No character is 0.
abbrev pub IsSolid : List ℕ → Type 0
IsSolid [] = Unit
IsSolid (c ∷ t) = (c ≢ 0) × IsSolid t

-- The first word is the one of the two characters.
abbrev pub starts_2 : ℕ → ℕ → List ℕ → Bool
starts_2 a b t = nth t 0 == a && nth t 1 == b && ends_word (nth t 2)

abbrev pub shutdown : List ℕ
shutdown = 115 ∷ 104 ∷ 117 ∷ 116 ∷ 100 ∷ 111 ∷ 119 ∷ 110 ∷ []

abbrev pub is_pwd : List ℕ → Bool
is_pwd t = nth t 0 == 112 && nth t 1 == 119 && nth t 2 == 100 && ends_word (nth t 3)

-- What a command without blanks in front asks for.
abbrev pub meaning : ℕ → List ℕ → List Action
meaning fd t =
    let argument = strip (drop 3 t) in
    if same_name shutdown t
    then sys_shut ∷ []
    else if starts_2 108 115 t
    then sys_lsdir argument fd ∷ []
    else if starts_2 99 100 t
    then (if length argument == 0 then need_path ∷ [] else sys_cddir argument fd ∷ [])
    else if is_pwd t
    then sys_pwd fd ∷ []
    else sys_exec t fd ∷ []

pub nth-drop : (i j : ℕ) (t : List ℕ) → nth (drop i t) j ≡ nth t (i + j)
nth-drop zero j t = ap (nth t) (omega arith)
nth-drop (suc i) j [] = refl
nth-drop (suc i) j (c ∷ t) = nth-drop i j t ∙ ap (nth (c ∷ t)) succ
  where
    succ : suc (i + j) ≡ suc i + j
    succ = omega arith

pub length-drop : (i : ℕ) (t : List ℕ) → length (drop i t) ≡ length t - i
length-drop zero t = omega arith
length-drop (suc i) [] = omega arith
length-drop (suc i) (c ∷ t) = omega (arith, length-drop i t)

drop-IsSolid : (i : ℕ) (t : List ℕ) → IsSolid t → IsSolid (drop i t)
drop-IsSolid zero t h = h
drop-IsSolid (suc i) [] h = h
drop-IsSolid (suc i) (c ∷ t) h = drop-IsSolid i t (h.1)

-- The line from `i` on holds the string `t`, with zeros behind it up to its end.
pub record Holds (line : ℕ → ℕ) (i : ℕ) (t : List ℕ) : Type 0 where
  pub ends : i + length t < 256
  pub solid : IsSolid t
  pub chars : (j : ℕ) → i + j < 256 → line (i + j) ≡ nth t j

pub nth-end : (t : List ℕ) (i : ℕ) → length t ≤ i → nth t i ≡ 0
nth-end [] i h = refl
nth-end (c ∷ t) zero h = absurd (omega arith)
nth-end (c ∷ t) (suc i) h = nth-end t i (omega arith)

pub Holds-first : (line : ℕ → ℕ) (i : ℕ) (t : List ℕ) → Holds line i t → line i ≡ nth t 0
Holds-first line i t h =
    let here : i ≡ i + 0 = omega arith in
    let ends = h.ends in ap line here ∙ h.chars 0 (omega arith)

pub Holds-drop :
    (line : ℕ → ℕ) (i d : ℕ) (t : List ℕ)
    → Holds line i t
    → i + d < 256
    → Holds line (i + d) (drop d t)
Holds-drop line i d t h room =
    let shorter = length-drop d t in
    let ends = h.ends in
    record {
      ends = omega arith;
      solid = drop-IsSolid d t (h.solid);
      chars = λ j less.
          let assoc : i + d + j ≡ i + (d + j) = omega arith in
          ap line assoc ∙ h.chars (d + j) (omega arith) ∙ sym (nth-drop d j t);
    }

pub Holds-tail : (line : ℕ → ℕ) (i c : ℕ) (t : List ℕ) → Holds line i (c ∷ t) → Holds line (i + 1) t
Holds-tail line i c t h = let ends = h.ends in Holds-drop line i 1 (c ∷ t) h (omega arith)

pub text-Holds :
    (fuel : ℕ) (line : ℕ → ℕ) (i : ℕ) (t : List ℕ)
    → Holds line i t
    → length t < fuel
    → text fuel line i ≡ t
unfolding text
text-Holds zero line i t h enough = absurd (omega arith)
text-Holds (suc fuel) line i [] h enough = let e = Holds-first line i [] h in ground arith
text-Holds (suc fuel) line i (c ∷ t) h enough =
    let e = Holds-first line i (c ∷ t) h in
    let some_char = (h.solid).0 in
    let rest = text-Holds fuel line (i + 1) t (Holds-tail line i c t h) (omega arith) in
    let going : c == 0 ≡ false = ground arith in rw (e, going, rest) refl

pub skip_blanks-Holds :
    (fuel : ℕ) (line : ℕ → ℕ) (i : ℕ) (t : List ℕ)
    → Holds line i t
    → length t < fuel
    → Holds line (skip_blanks fuel line i) (strip t)
unfolding skip_blanks
skip_blanks-Holds zero line i t h enough = absurd (omega arith)
skip_blanks-Holds (suc fuel) line i [] h enough = let e = Holds-first line i [] h in rw e h
skip_blanks-Holds (suc fuel) line i (c ∷ t) h enough =
    let e = Holds-first line i (c ∷ t) h in
    let rest = skip_blanks-Holds fuel line (i + 1) t (Holds-tail line i c t h) (omega arith) in
    rw e
      (elim (Bool-cases (is_blank c))
        as (λ _.
          Holds line (if is_blank c then skip_blanks fuel line (i + 1) else i)
            (if is_blank c then strip t else c ∷ t)) [
              | inl yes_blank ↦ rw yes_blank rest
              | inr no_blank ↦ rw no_blank h
            ])

pub is_empty_from-Holds :
    (rounds : ℕ) (line : ℕ → ℕ) (i : ℕ) (t : List ℕ)
    → Holds line i t
    → length t < rounds
    → is_empty_from line rounds i ≡ (length (strip t) == 0)
unfolding is_empty_from
is_empty_from-Holds zero line i t h enough = absurd (omega arith)
is_empty_from-Holds (suc rounds) line i [] h enough =
    let e = Holds-first line i [] h in ground arith
is_empty_from-Holds (suc rounds) line i (c ∷ t) h enough =
    let e = Holds-first line i (c ∷ t) h in
    let some_char = (h.solid).0 in
    let rest = is_empty_from-Holds rounds line (i + 1) t (Holds-tail line i c t h) (omega arith) in
    let going : c == 0 ≡ false = ground arith in rw (e, going, rest) (ground arith)
