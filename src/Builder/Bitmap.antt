-- ===== src/Builder/Bitmap.antt =====
-- The freemap block of mkfs/mksfs.c: one bit for each block.
use moonix.Base.{
  ℕ, zero, suc, ◌+◌, ◌*◌, ◌/◌, ◌%◌, ◌≡◌, refl, ap, ◌∙◌, arith, Bool, true, false, ◌&&◌, not, List,
  [], ◌∷◌, ◌==◌, if◌then◌else◌, length,
}
use Prim.Native.Nat.{bit_or}
use moonix.Builder.{pack}

-- The bits of a number, the lowest first.
abbrev pub bits : ℕ → ℕ → List Bool
bits zero c = []
bits (suc n) c = (c % 2 == 1) ∷ bits n (c / 2)

-- The flags of the eight blocks from `b` on.
abbrev pub flags : (ℕ → Bool) → ℕ → List Bool
flags freemap b =
    freemap (b + 0)
    ∷ freemap (b + 1)
    ∷ freemap (b + 2)
    ∷ freemap (b + 3)
    ∷ freemap (b + 4)
    ∷ freemap (b + 5)
    ∷ freemap (b + 6)
    ∷ freemap (b + 7)
    ∷ []

abbrev set_bit : ℕ → Bool → ℕ → ℕ
set_bit c used bit = if used then bit_or c bit else c

-- The flags put into a number from `bit` on.
abbrev byte : ℕ → ℕ → List Bool → ℕ
byte c bit [] = c
byte c bit (used ∷ rest) = byte (set_bit c used bit) (bit * 2) rest

abbrev same : Bool → Bool → Bool
same a b = if a then b else not b

abbrev same_all : List Bool → List Bool → Bool
same_all [] [] = true
same_all (a ∷ s) (b ∷ t) = same a b && same_all s t
same_all s t = false

same_all-eq : (s t : List Bool) → same_all s t ≡ true → s ≡ t
same_all-eq [] [] h = refl
same_all-eq [] (b ∷ t) h = absurd (ground arith)
same_all-eq (a ∷ s) [] h = absurd (ground arith)
same_all-eq (true ∷ s) (true ∷ t) h = ap (λ u. true ∷ u) (same_all-eq s t h)
same_all-eq (true ∷ s) (false ∷ t) h = absurd (ground arith)
same_all-eq (false ∷ s) (true ∷ t) h = absurd (ground arith)
same_all-eq (false ∷ s) (false ∷ t) h = ap (λ u. false ∷ u) (same_all-eq s t h)

-- Of all lists of `n` flags.
abbrev every : ℕ → (List Bool → Bool) → Bool
every zero p = p []
every (suc n) p = every n (λ t. p (true ∷ t)) && every n (λ t. p (false ∷ t))

both : (a b : Bool) → a && b ≡ true → (a ≡ true) × (b ≡ true)
both true b h = (refl, h)
both false b h = absurd (ground arith)

every-at :
    (n : ℕ) (p : List Bool → Bool) (t : List Bool) → every n p ≡ true → length t ≡ n → p t ≡ true
every-at zero p [] h e = h
every-at zero p (used ∷ t) h e = absurd (omega arith)
every-at (suc n) p [] h e = absurd (omega arith)
every-at (suc n) p (true ∷ t) h e =
    every-at n (λ t'. p (true ∷ t')) t ((both _ _ h).0) (omega arith)
every-at (suc n) p (false ∷ t) h e =
    every-at n (λ t'. p (false ∷ t')) t ((both _ _ h).1) (omega arith)

-- All 256 bytes.
all_bytes : every 8 (λ t. same_all (bits 8 (byte 0 1 t)) t) ≡ true
all_bytes = refl

bits-byte : (t : List Bool) → length t ≡ 8 → bits 8 (byte 0 1 t) ≡ t
bits-byte t e =
    same_all-eq _ _ (every-at 8 (λ t'. same_all (bits 8 (byte 0 1 t')) t') t all_bytes e)

pack-byte : (freemap : ℕ → Bool) (i : ℕ) → pack freemap i 8 ≡ byte 0 1 (flags freemap (i * 8))
unfolding pack
pack-byte freemap i = refl

-- The bits of byte `i` of the freemap block, the lowest first, are the flags of the eight
-- blocks from `8 i` on.
pub bits-pack : (freemap : ℕ → Bool) (i : ℕ) → bits 8 (pack freemap i 8) ≡ flags freemap (i * 8)
bits-pack freemap i = ap (bits 8) (pack-byte freemap i) ∙ bits-byte (flags freemap (i * 8)) refl
