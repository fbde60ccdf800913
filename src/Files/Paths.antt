-- ===== src/Files/Paths.antt =====
-- `getInodePath` (kernel/fs.c): the path of a directory, written backwards into a buffer of 256 characters
-- and the one behind it. The place that `ptr` points at is its index in the buffer.
use mathlib.Core.Path.{subst}
use moonix.Base.{
  ℕ, zero, suc, ◌+◌, ◌-◌, ◌≤◌, ◌<◌, ◌≡◌, refl, ap, ◌∙◌, arith, ◌⊎◌, inl, inr, true, false, Option,
  none, some, List, [], ◌∷◌, ◌++◌, update, update-at, update-other, Run, ok, panic, out_of_fuel,
  ◌>>=◌, Returns, returns, ltb, if◌then◌else◌, length, length-append, same_or_not,
}
use moonix.Files.{Image, slash, same_name, lookup}

-- The `i`-th character, and 0 behind the end.
abbrev pub nth : List ℕ → ℕ → ℕ
nth [] i = 0
nth (c ∷ t) zero = c
nth (c ∷ t) (suc i) = nth t i

-- The first `n` characters of a name, the last one at `ptr`.
unfoldable pub put_name : List ℕ → ℕ → ℕ → (ℕ → ℕ) → ℕ → ℕ
put_name name zero ptr buf = buf
put_name name (suc n) ptr buf = put_name name n (ptr - 1) (update buf ptr (nth name n))

-- The inode behind `..`; the code reads through a null pointer if there is none.
abbrev parent_of : Option ℕ → Run ℕ
parent_of none = panic
parent_of (some b) = ok b

-- The loop, with the pointer and the buffer.
unfoldable pub put_path : ℕ → Image → ℕ → ℕ → (ℕ → ℕ) → Run (ℕ × (ℕ → ℕ))
put_path zero image b ptr buf = out_of_fuel
put_path (suc fuel) image b ptr buf =
    let name = (image.inode b).filename in
    let len = length name in
    let named = put_name name len ptr buf in
    if same_name name (slash ∷ []) then ok (ptr + 1, buf) else (do
      found ← lookup 2 image (some b) (46 ∷ 46 ∷ [])
      parent ← parent_of found
      put_path fuel image parent (ptr - len - 1) (update named (ptr - len) slash))

unfoldable pub get_inode_path : ℕ → Image → ℕ → (ℕ → ℕ) → Run (ℕ × (ℕ → ℕ))
get_inode_path fuel image b buf =
    let cleared = update buf 256 0 in
    if same_name ((image.inode b).filename) (slash ∷ [])
    then ok (255, update cleared 255 slash)
    else put_path fuel image b 255 cleared

-- The buffer holds the text at `p`, up to the 0 at its end.
pub record Spells (buf : ℕ → ℕ) (p : ℕ) (t : List ℕ) : Type 0 where
  pub ends : p + length t ≡ 256
  pub chars : (k : ℕ) → k < length t → buf (p + k) ≡ nth t k
  pub terminated : buf 256 ≡ 0

put_name-outside :
    (name : List ℕ) (n ptr : ℕ) (buf : ℕ → ℕ) (a : ℕ)
    → n ≤ ptr
    → (ptr < a) ⊎ (a ≤ ptr - n)
    → put_name name n ptr buf a ≡ buf a
unfolding put_name
put_name-outside name zero ptr buf a room out = refl
put_name-outside name (suc n) ptr buf a room out =
    put_name-outside name n (ptr - 1) (update buf ptr (nth name n)) a (omega arith) (omega arith)
    ∙ update-other buf ptr (nth name n) a (omega arith)

put_name-at :
    (name : List ℕ) (n ptr : ℕ) (buf : ℕ → ℕ) (k : ℕ)
    → n ≤ ptr
    → k < n
    → put_name name n ptr buf (ptr + 1 - n + k) ≡ nth name k
unfolding put_name
put_name-at name zero ptr buf k room h = absurd (omega arith)
put_name-at name (suc n) ptr buf k room h = elim (same_or_not k n) [
  | inl e ↦
      let place : ptr + 1 - suc n + k ≡ ptr = omega arith in
      rw (place, e)
        (put_name-outside name n (ptr - 1) (update buf ptr (nth name n)) ptr (omega arith)
            (omega arith)
          ∙ update-at buf ptr (nth name n))
  | inr other ↦
      let place : ptr + 1 - suc n + k ≡ ptr - 1 + 1 - n + k = omega arith in
      rw place
        (put_name-at name n (ptr - 1) (update buf ptr (nth name n)) k (omega arith) (omega arith))
]

nth-append :
    (s t : List ℕ) (k : ℕ)
    → nth (s ++ t) k ≡ (if ltb k (length s) then nth s k else nth t (k - length s))
nth-append [] t k = ground arith
nth-append (c ∷ s) t zero = ground arith
nth-append (c ∷ s) t (suc k) = ground (arith, nth-append s t k)

module _ (name t : List ℕ) (ptr : ℕ) (buf : ℕ → ℕ) (room : length name < ptr)
    (s : Spells buf (ptr + 1) t) where
  abbrev named : ℕ → ℕ
  named = put_name name (length name) ptr buf

  behind-slash :
      (k : ℕ) → k < length (name ++ t) → named (ptr - length name + suc k) ≡ nth (name ++ t) k
  behind-slash k h =
      let longer = length-append {0} name t in
      let near : (k < length name) ⊎ (length name ≤ k) = omega arith in
      elim near [
        | inl first ↦
            let place : ptr - length name + suc k ≡ ptr + 1 - length name + k = omega arith in
            let low : ltb k (length name) ≡ true = ground arith in
            rw (place, nth-append name t k, low)
              (put_name-at name (length name) ptr buf k (omega arith) first)
        | inr later ↦
            let place : ptr - length name + suc k ≡ ptr + 1 + (k - length name) = omega arith in
            let high : ltb k (length name) ≡ false = ground arith in
            rw (place, nth-append name t k, high)
              (put_name-outside name (length name) ptr buf (ptr + 1 + (k - length name))
                  (omega arith) (omega arith)
                ∙ s.chars (k - length name) (omega arith))
      ]

  name-chars :
      (k : ℕ)
      → k < length (slash ∷ name ++ t)
      → update named (ptr - length name) slash (ptr - length name + k) ≡ nth (slash ∷ name ++ t) k
  name-chars zero h =
      let place : ptr - length name + 0 ≡ ptr - length name = omega arith in
      rw place (update-at named (ptr - length name) slash)
  name-chars (suc k) h =
      update-other named (ptr - length name) slash (ptr - length name + suc k) (omega arith)
      ∙ behind-slash k (omega arith)

-- A name and the slash in front of it.
name-Spells :
    (name t : List ℕ) (ptr : ℕ) (buf : ℕ → ℕ)
    → length name < ptr
    → Spells buf (ptr + 1) t
    → Spells
        (update (put_name name (length name) ptr buf) (ptr - length name) slash)
        (ptr - length name)
        (slash ∷ name ++ t)
name-Spells name t ptr buf room s =
    let n = length name in
    let longer = length-append {0} name t in
    let ends = s.ends in
    record {
      ends = omega arith;
      chars = name-chars name t ptr buf room s;
      terminated =
          update-other (put_name name n ptr buf) (ptr - n) slash 256 (omega arith)
          ∙ put_name-outside name n ptr buf 256 (omega arith) (omega arith)
          ∙ s.terminated;
    }

-- The directories from `b` up to the root have these names, and each is found behind `..` of the next.
abbrev pub Under : Image → ℕ → List (List ℕ) → Type 0
Under image b [] = (image.inode b).filename ≡ slash ∷ []
Under image b (n ∷ ns) =
    ((image.inode b).filename ≡ n)
    × (same_name n (slash ∷ []) ≡ false)
    × ((parent : ℕ) × (lookup 2 image (some b) (46 ∷ 46 ∷ []) ≡ ok (some parent))
        × Under image parent ns)

-- The path of a directory with these names, the last one first.
abbrev pub path_of : List (List ℕ) → List ℕ
path_of [] = []
path_of (n ∷ ns) = path_of ns ++ slash ∷ n

append_assoc : (s t u : List ℕ) → (s ++ t) ++ u ≡ s ++ (t ++ u)
append_assoc [] t u = refl
append_assoc (c ∷ s) t u = ap (λ v. c ∷ v) (append_assoc s t u)

append_nil : (s : List ℕ) → s ++ [] ≡ s
append_nil [] = refl
append_nil (c ∷ s) = ap (λ v. c ∷ v) (append_nil s)

put_path-Spells :
    (fuel : ℕ) (image : Image) (b : ℕ) (ns : List (List ℕ)) (ptr : ℕ) (buf : ℕ → ℕ) (t : List ℕ)
    → length ns < fuel
    → Under image b ns
    → length (path_of ns) ≤ ptr
    → Spells buf (ptr + 1) t
    → Returns (λ (p, buf'). Spells buf' p (path_of ns ++ t)) (put_path fuel image b ptr buf)
unfolding put_path same_name
put_path-Spells zero image b ns ptr buf t enough under room s = absurd (omega arith)
put_path-Spells (suc fuel) image b [] ptr buf t enough under room s = rw under (returns s)
put_path-Spells (suc fuel) image b (n ∷ ns) ptr buf t enough
      (has_name, not_root, (parent, found, under)) room s =
    let longer = length-append {0} (path_of ns) (slash ∷ n) in
    let place : ptr - length n - 1 + 1 ≡ ptr - length n = omega arith in
    let next = name-Spells n t ptr buf (omega arith) s in
    let rest =
      put_path-Spells fuel image parent ns (ptr - length n - 1)
        (update (put_name n (length n) ptr buf) (ptr - length n) slash) (slash ∷ n ++ t)
        (omega arith) under (omega arith) (rw place next) in
    rw (has_name, not_root, found, append_assoc (path_of ns) (slash ∷ n) t) rest

-- `/` for the root.
abbrev pub full_path : List (List ℕ) → List ℕ
full_path [] = slash ∷ []
full_path (n ∷ ns) = path_of (n ∷ ns)

-- For the root, or a directory whose inode and those behind `..` have their names up to the root, with a
-- path of at most 255 characters, and fuel above the number of levels: `getInodePath` returns,
-- and the string that it points at is the path.
pub get_inode_path-Spells :
    (fuel : ℕ) (image : Image) (b : ℕ) (ns : List (List ℕ)) (buf : ℕ → ℕ)
    → length ns < fuel
    → Under image b ns
    → length (path_of ns) ≤ 255
    → Returns (λ (p, buf'). Spells buf' p (full_path ns)) (get_inode_path fuel image b buf)
unfolding get_inode_path same_name
get_inode_path-Spells fuel image b [] buf enough under room =
    rw under (returns (record { ends = refl; chars = one; terminated = refl }))
  where
    one : (k : ℕ) → k < 1 → update (update buf 256 0) 255 slash (255 + k) ≡ nth (slash ∷ []) k
    one zero h = refl
    one (suc k) h = absurd (omega arith)
get_inode_path-Spells fuel image b (n ∷ ns) buf enough under room =
    let (has_name, not_root, _) = under in
    let start : Spells (update buf 256 0) 256 [] = record {
      ends = refl;
      chars = λ k h. absurd (omega arith);
      terminated = refl;
    } in
    let none : path_of (n ∷ ns) ++ [] ≡ path_of (n ∷ ns) = append_nil (path_of (n ∷ ns)) in
    rw (has_name, not_root)
      (subst
        (λ t. Returns (λ (p, buf'). Spells buf' p t) (put_path fuel image b 255 (update buf 256 0)))
        none
        (put_path-Spells fuel image b (n ∷ ns) 255 (update buf 256 0) [] enough under room start))
