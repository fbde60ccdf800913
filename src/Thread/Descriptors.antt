-- ===== src/Thread/Descriptors.antt =====
-- `allocFd` finds the lowest free descriptor, and fails only if all 16 are taken.
use moonix.Base.{
  ℕ, zero, suc, ◌+◌, ◌<◌, ◌≤◌, ◌≡◌, refl, Bool, true, false, Option, none, some, arith, inl, inr,
  Bool-cases,
}
use moonix.Thread.{Thread, free_fd, alloc_fd, dealloc_fd}

-- What a search of the descriptors from `lo` up to `hi` says.
abbrev pub Lowest : (ℕ → Bool) → ℕ → ℕ → Option ℕ → Type 0
Lowest fds lo hi (some k) =
    (lo ≤ k) × (k < hi) × (fds k ≡ false) × ((j : ℕ) → lo ≤ j → j < k → fds j ≡ true)
Lowest fds lo hi none = (j : ℕ) → lo ≤ j → j < hi → fds j ≡ true

Lowest-taken :
    (fds : ℕ → Bool) (lo hi : ℕ) (o : Option ℕ)
    → fds lo ≡ true
    → Lowest fds (lo + 1) hi o
    → Lowest fds lo hi o
Lowest-taken fds lo hi none e h = λ j p q. grind (arith, h)
Lowest-taken fds lo hi (some k) e h = (omega arith, h.1, h.2, λ j p q. grind (arith, h.3))

pub free_fd-Lowest :
    (fds : ℕ → Bool) (rounds i hi : ℕ) → i + rounds ≡ hi → Lowest fds i hi (free_fd fds rounds i)
unfolding free_fd
free_fd-Lowest fds zero i hi e = λ j p q. absurd (omega arith)
free_fd-Lowest fds (suc rounds) i hi e = elim (Bool-cases (fds i)) [
  | inl taken ↦ rw taken (
      Lowest-taken fds i hi (free_fd fds rounds (i + 1)) taken
        (free_fd-Lowest fds rounds (i + 1) hi (omega arith)))
  | inr free ↦ rw free (omega arith, omega arith, free, λ j p q. absurd (omega arith))
]

-- The descriptor that `allocFd` gives is below 16, free, and every lower one is taken; it gives
-- -1 only if all 16 are taken.
pub alloc_fd-Lowest : (t : Thread) → Lowest t.process.fd_occupied 0 16 (alloc_fd t)
unfolding alloc_fd
alloc_fd-Lowest t = free_fd-Lowest t.process.fd_occupied 16 0 16 refl

-- `deallocFd` frees its descriptor and no other, so that `allocFd` succeeds afterwards, at that
-- descriptor or a lower one.
pub alloc_fd-dealloc_fd :
    (t : Thread) (fd : ℕ) → fd < 16 → (k : ℕ) × (alloc_fd (dealloc_fd t fd) ≡ some k) × (k ≤ fd)
unfolding dealloc_fd
alloc_fd-dealloc_fd t fd bound =
    found (alloc_fd (dealloc_fd t fd)) refl (alloc_fd-Lowest (dealloc_fd t fd))
  where
    found :
        (o : Option ℕ)
        → alloc_fd (dealloc_fd t fd) ≡ o
        → Lowest (dealloc_fd t fd).process.fd_occupied 0 16 o
        → (k : ℕ) × (alloc_fd (dealloc_fd t fd) ≡ some k) × (k ≤ fd)
    found none e h = absurd (ground (arith, h fd))
    found (some k) e h = (k, e, ground (arith, h.3 fd))
