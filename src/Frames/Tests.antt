-- ===== src/Frames/Tests.antt =====
-- A small page allocator: four pages from page 8 on.
use moonix.Base.{ℕ, ◌≡◌, ◌≤◌, ◌+◌, ◌*◌, ◌^◌, refl, arith, ok, panic, Returns, ◌>>=◌, ◌↔◌}
use moonix.Frames.{Sta, Frames, new_allocator, alloc, dealloc, alloc_frame, dealloc_frame}
use moonix.Frames.Pages.{
  IsValid, IsPage, page, Sets, alloc-Sets, alloc-panic, dealloc-Sets, dealloc-alloc,
}
use moonix.Frames.Init.{Starts, new_allocator-Starts}
use moonix.Frames.Memory.{Cleared, alloc_frame-Cleared, dealloc_frame-alloc_frame}

abbrev small : Sta
small = new_allocator 8 12

small-Starts : Starts 8 12 (omega arith) (omega arith) (omega arith) (omega arith) small
small-Starts = new_allocator-Starts 8 12 (omega arith) (omega arith) (omega arith) (omega arith)

small-IsValid : IsValid small
small-IsValid = small-Starts.valid

-- Pages 8, 9 and 10 are handed out, then memory is used up; page 11 never is.
three_pages : (do (a, s) ← alloc small; (b, t) ← alloc s; (c, u) ← alloc t; ok (a + b + c)) ≡ ok 27
unfolding alloc new_allocator
three_pages = refl

depleted : (do (a, s) ← alloc small; (b, t) ← alloc s; (c, u) ← alloc t; alloc u) ≡ panic
unfolding alloc new_allocator
depleted = refl

small_root : small.node 1 ≡ 0
unfolding new_allocator
small_root = refl

new_allocator-Starts_example :
    Starts 8 12 (omega arith) (omega arith) (omega arith) (omega arith) (new_allocator 8 12)
new_allocator-Starts_example =
    new_allocator-Starts 8 12 (omega arith) (omega arith) (omega arith) (omega arith)

alloc-Sets_example :
    Returns (λ (r, s'). IsPage small r × (page small r ≡ 0) × Sets small r 1 s') (alloc small)
alloc-Sets_example = alloc-Sets small small-IsValid small_root

alloc-panic_example : (alloc small ≡ panic) ↔ ((r : ℕ) → IsPage small r → page small r ≡ 1)
alloc-panic_example = alloc-panic small small-IsValid

small_range : IsPage small 7
unfolding new_allocator
small_range = omega arith

small_seven : page small 7 ≡ 1
unfolding new_allocator
small_seven = refl

dealloc-Sets_example : Sets small 7 0 (dealloc small 7)
dealloc-Sets_example = dealloc-Sets small 7 small-IsValid small_range small_seven

dealloc-alloc_example :
    Returns
      (λ (r, s'). (i : ℕ) → IsPage small i → page (dealloc s' r) i ≡ page small i)
      (alloc small)
dealloc-alloc_example = dealloc-alloc small small-IsValid small_root

abbrev frames : Frames
frames = record { sta = small; memory = λ x. 0xcc }

small_fits : (small.start_ppn + small.first_single) * 4096 ≤ 2 ^ 64
unfolding new_allocator
small_fits = omega arith

alloc_frame-Cleared_example : Returns (λ (a, f'). Cleared frames a f') (alloc_frame frames)
alloc_frame-Cleared_example = alloc_frame-Cleared frames small-IsValid small_fits small_root

dealloc_frame-alloc_frame_example :
    Returns
      (λ (a, f'). (i : ℕ) → IsPage small i → page (dealloc_frame f' a).sta i ≡ page small i)
      (alloc_frame frames)
dealloc_frame-alloc_frame_example =
    dealloc_frame-alloc_frame frames small-IsValid small_fits small_root
