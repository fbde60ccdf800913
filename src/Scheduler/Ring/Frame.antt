-- ===== src/Scheduler/Ring/Frame.antt =====
-- The part of the ring that an operation does not write stays as it is.
use moonix.Base.{ℕ, suc, ◌≡◌, refl, true, false, List, [], ◌∷◌, map, has, arith}
use moonix.Scheduler.{RrInfo}
use moonix.Scheduler.Ring.{IsQueued, Chain}

pub IsQueued-frame : (t u : ℕ → RrInfo) (p x : ℕ) → IsQueued t p x → u x ≡ t x → IsQueued u p x
IsQueued-frame t u p x h e = record {
  back = ground arith;
  positive = h.positive;
  bounded = h.bounded;
  flagged = ground arith;
  slice = ground arith;
}

pub Chain-fresh : (t : ℕ → RrInfo) (p : ℕ) (xs : List ℕ) → Chain t p xs → has p xs ≡ false
Chain-fresh t p [] c = refl
Chain-fresh t p (x ∷ xs) c = c.1

-- A chain reads the `next` of its first entry, its further entries and the `prev` of 0.
pub Chain-frame :
    (t u : ℕ → RrInfo) (p : ℕ) (xs : List ℕ)
    → Chain t p xs
    → (u p).next ≡ (t p).next
    → (u 0).prev ≡ (t 0).prev
    → ((x : ℕ) → has x xs ≡ true → u x ≡ t x)
    → Chain u p xs
Chain-frame t u p [] c n z same = (ground arith, ground arith)
Chain-frame t u p (x ∷ xs) c n z same =
    let e : u x ≡ t x = same x (ground arith) in
    (
      ground arith,
      c.1,
      IsQueued-frame t u p x c.2 e,
      Chain-frame t u x xs c.3 (ground arith) z (λ y h. same y (ground arith)),
    )

pub has-map-suc : (a : ℕ) (q : List ℕ) → has (suc a) (map suc q) ≡ has a q
has-map-suc a [] = refl
has-map-suc a (x ∷ q) = ground (arith, has-map-suc a q)

pub has-map-suc_zero : (q : List ℕ) → has 0 (map suc q) ≡ false
has-map-suc_zero [] = refl
has-map-suc_zero (x ∷ q) = ground (arith, has-map-suc_zero q)
