-- ===== src/Files/Walk.antt =====
-- `lookup` (kernel/fs.c) of a path of names walks down the directories of the image.
use moonix.Base.{
  ℕ, zero, suc, ◌<◌, ◌≡◌, ◌≢◌, refl, ap, ◌∙◌, arith, Bool, true, false, Option, none, some, List,
  [], ◌∷◌, ◌++◌, Run, ok, ◌==◌, if◌then◌else◌, length, has,
}
use moonix.Files.{Image, slash, type_dir, split, find_in, start_at, go_on, resolve, lookup}

-- A name in a path: not empty, and without a `/`.
abbrev pub IsName : List ℕ → Type 0
IsName n = (0 < length n) × (has slash n ≡ false)

abbrev pub AreNames : List (List ℕ) → Type 0
AreNames [] = Unit
AreNames (n ∷ ns) = IsName n × AreNames ns

-- The names with a `/` between them.
abbrev pub join : List (List ℕ) → List ℕ
join [] = []
join (n ∷ []) = n
join (n ∷ m ∷ ns) = n ++ slash ∷ join (m ∷ ns)

abbrev pub and_then : Option ℕ → (ℕ → Option ℕ) → Option ℕ
and_then none next = none
and_then (some b) next = next b

-- From the inode `here` down the names; `none` where there is no such entry, or no directory.
abbrev pub walk : Image → ℕ → List (List ℕ) → Option ℕ
walk image here [] = some here
walk image here (n ∷ ns) =
    let below = and_then (find_in image (image.inode here) n) (λ b. walk image b ns) in
    if (image.inode here).kind == type_dir then below else none

split-slash : (n rest : List ℕ) → has slash n ≡ false → split (n ++ slash ∷ rest) ≡ (n, rest)
unfolding split
split-slash [] rest h = refl
split-slash (c ∷ n) rest h =
    let other : c == slash ≡ false = ground arith in
    let tail = split-slash n rest (ground arith) in rw (other, tail) refl

split-end : (n : List ℕ) → has slash n ≡ false → split n ≡ (n, [])
unfolding split
split-end [] h = refl
split-end (c ∷ n) h =
    let other : c == slash ≡ false = ground arith in
    let tail = split-end n (ground arith) in rw (other, tail) refl

resolve-step :
    (next : ℕ → List ℕ → Run (Option ℕ)) (image : Image) (here c : ℕ) (p n rest : List ℕ)
    → split (c ∷ p) ≡ (n, rest)
    → resolve next image (here, c ∷ p) ≡ (
        if (image.inode here).kind == type_dir
        then go_on (λ b. next b rest) (find_in image (image.inode here) n)
        else ok none)
unfolding resolve
resolve-step next image here c p n rest e =
    let longer : suc (length p) == 0 ≡ false = ground arith in rw (longer, e) refl

start_at-name :
    (image : Image) (here c : ℕ) (p : List ℕ)
    → c ≢ slash
    → start_at image (some here) (c ∷ p) ≡ (here, c ∷ p)
unfolding start_at
start_at-name image here c p h = let other : c == slash ≡ false = ground arith in rw other refl

-- One level of the path `c ∷ p`, which does not start at the root.
lookup-step :
    (fuel : ℕ) (image : Image) (here c : ℕ) (p n rest : List ℕ)
    → c ≢ slash
    → split (c ∷ p) ≡ (n, rest)
    → lookup (suc fuel) image (some here) (c ∷ p) ≡ (
        if (image.inode here).kind == type_dir
        then go_on (λ b. lookup fuel image (some b) rest) (find_in image (image.inode here) n)
        else ok none)
unfolding lookup
lookup-step fuel image here c p n rest h e =
    let next = λ (b : ℕ) (rest' : List ℕ). lookup fuel image (some b) rest' in
    ap (resolve next image) (start_at-name image here c p h)
    ∙ resolve-step next image here c p n rest e

level :
    (image : Image) (fuel : ℕ) (rest : List ℕ) (ns : List (List ℕ)) (d : Bool) (found : Option ℕ)
    → ((b : ℕ) → lookup fuel image (some b) rest ≡ ok (walk image b ns))
    → (if d then go_on (λ b. lookup fuel image (some b) rest) found else ok none)
      ≡ ok (if d then and_then found (λ b. walk image b ns) else none)
unfolding go_on
level image fuel rest ns false found h = refl
level image fuel rest ns true none h = refl
level image fuel rest ns true (some b) h = h b

lookup-here :
    (fuel : ℕ) (image : Image) (here : ℕ) → lookup (suc fuel) image (some here) [] ≡ ok (some here)
unfolding lookup resolve start_at
lookup-here fuel image here = refl

-- `lookup` of a path of names, with fuel for one level more than it has, ends, and walks down
-- the directories by the names.
pub lookup-walk :
    (fuel : ℕ) (image : Image) (here : ℕ) (ns : List (List ℕ))
    → AreNames ns
    → length ns < fuel
    → lookup fuel image (some here) (join ns) ≡ ok (walk image here ns)
lookup-walk zero image here ns h b = absurd (omega arith)
lookup-walk (suc fuel) image here [] h b = lookup-here fuel image here
lookup-walk (suc fuel) image here ([] ∷ ns) h b = absurd (omega (arith, h.0.0))
lookup-walk (suc fuel) image here ((c ∷ n) ∷ []) ((some_chars, no_slash), h) b =
    let other : c ≢ slash = ground arith in
    lookup-step fuel image here c n (c ∷ n) [] other (split-end (c ∷ n) no_slash)
    ∙ level image fuel [] [] _ _ (λ d. lookup-walk fuel image d [] tt (omega arith))
lookup-walk (suc fuel) image here ((c ∷ n) ∷ m ∷ ns) ((some_chars, no_slash), h) b =
    let other : c ≢ slash = ground arith in
    let rest = join (m ∷ ns) in
    lookup-step fuel image here c (n ++ slash ∷ rest) (c ∷ n) rest other
      (split-slash (c ∷ n) rest no_slash)
    ∙ level image fuel rest (m ∷ ns) _ _ (λ d. lookup-walk fuel image d (m ∷ ns) h (omega arith))

start_at-root :
    (image : Image) (from : Option ℕ) (ns : List (List ℕ))
    → AreNames ns
    → start_at image from (slash ∷ join ns) ≡ start_at image (some (image.root_inode)) (join ns)
unfolding start_at
start_at-root image none [] h = refl
start_at-root image (some here) [] h = refl
start_at-root image from ([] ∷ ns) h = absurd (omega (arith, h.0.0))
start_at-root image none ((c ∷ n) ∷ []) ((_, plain), h) =
    let other : c == slash ≡ false = ground arith in rw other refl
start_at-root image (some here) ((c ∷ n) ∷ []) ((_, plain), h) =
    let other : c == slash ≡ false = ground arith in rw other refl
start_at-root image none ((c ∷ n) ∷ m ∷ ns) ((_, plain), h) =
    let other : c == slash ≡ false = ground arith in rw other refl
start_at-root image (some here) ((c ∷ n) ∷ m ∷ ns) ((_, plain), h) =
    let other : c == slash ≡ false = ground arith in rw other refl

-- `lookup` of a `/` and names, wherever it starts, walks down from the root.
pub lookup-walk_root :
    (fuel : ℕ) (image : Image) (from : Option ℕ) (ns : List (List ℕ))
    → AreNames ns
    → length ns < fuel
    → lookup fuel image from (slash ∷ join ns) ≡ ok (walk image (image.root_inode) ns)
unfolding lookup
lookup-walk_root zero image from ns h b = absurd (omega arith)
lookup-walk_root (suc fuel) image from ns h b =
    let next = λ (d : ℕ) (rest : List ℕ). lookup fuel image (some d) rest in
    ap (resolve next image) (start_at-root image from ns h)
    ∙ lookup-walk (suc fuel) image (image.root_inode) ns h b
