-- ===== src/Heap/Interface.antt =====
-- What the clients of `kalloc` and `kfree` (kernel/heap.c) rely on for objects that fit one
-- block: an address that is not in use and not 0, and that stays in use until it is freed.
use moonix.Base.{ℕ, ◌≡◌, ◌≢◌, Bool, true, false, Run, Returns, ◌==◌, if◌then◌else◌}

pub record Allocator : Type 1 where
  pub State : Type 0
  pub kalloc : State → Run (ℕ × State)
  pub kfree : ℕ → State → State
  pub in_use : State → ℕ → Bool
  -- The invariant of the heap.
  pub Valid : State → Type 0
  -- There is memory left.
  pub Room : State → Type 0
  pub kalloc-fresh :
      (s : State)
      → Valid s
      → Room s
      → Returns
          (λ (n, s').
            Valid s'
            × (n ≢ 0)
            × (in_use s n ≡ false)
            × ((m : ℕ) → in_use s' m ≡ (if n == m then true else in_use s m)))
          (kalloc s)
  pub kfree-frees :
      (n : ℕ) (s : State)
      → Valid s
      → in_use s n ≡ true
      → Valid (kfree n s)
        × ((m : ℕ) → in_use (kfree n s) m ≡ (if n == m then false else in_use s m))
