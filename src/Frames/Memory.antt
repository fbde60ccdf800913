-- ===== src/Frames/Memory.antt =====
-- `allocFrame` and `deallocFrame`: pages by address, and the memory that they hold.
use moonix.Base.{
  sym, ℕ, ◌+◌, ◌*◌, ◌/◌, ◌%◌, ◌^◌, ◌≤◌, ◌≡◌, arith, ltb, leb, ap, ◌∙◌, ◌&&◌, if◌then◌else◌, Returns,
  returns, Returns-bind, Returns-mono,
}
use mathlib.Core.Path.{subst}
use moonix.Frames.{Frames, alloc_frame, dealloc_frame, dealloc, page_size}
use moonix.Frames.Init.{fill_at}
use moonix.Frames.Pages.{IsValid, IsPage, page, Sets, alloc-Sets, dealloc-Sets, Sets-restore}

-- What `allocFrame` promises for the address that it returns: it is the start of a page that was
-- free and is taken now, the page is all zero, and no other byte and no other page has changed.
pub record Cleared (f : Frames) (a : ℕ) (f' : Frames) : Type 0 where
  pub aligned : a % page_size ≡ 0
  pub range : IsPage f.sta (a / page_size)
  pub was_free : page f.sta (a / page_size) ≡ 0
  pub sets : Sets f.sta (a / page_size) 1 f'.sta
  pub bytes : (x : ℕ) → f'.memory x ≡ (if leb a x && ltb x (a + page_size) then 0 else f.memory x)

module _ (f : Frames) (h : IsValid f.sta)
    (fits : (f.sta.start_ppn + f.sta.first_single) * page_size ≤ 2 ^ 64) where
  -- With a free page left, and a range of pages whose addresses fit into 64 bits, `allocFrame`
  -- returns the address of a page as `Cleared` says.
  pub alloc_frame-Cleared : f.sta.node 1 ≡ 0 → Returns (λ (a, f'). Cleared f a f') (alloc_frame f)
  unfolding alloc_frame
  alloc_frame-Cleared root = Returns-bind (alloc-Sets f.sta h root) λ (r, s) (range, free, sets).
      let a = r * page_size % 2 ^ 64 in
      let number : a / page_size ≡ r = omega arith in
      returns (record {
        aligned = omega arith;
        range = subst (IsPage f.sta) (sym number) range;
        was_free = ap (page f.sta) number ∙ free;
        sets = subst (λ k. Sets f.sta k 1 s) (sym number) sets;
        bytes = fill_at f.memory page_size a 0;
      })

  -- A frame that `allocFrame` returned is given back by `deallocFrame` at its address: every page
  -- is again as it was before.
  pub dealloc_frame-alloc_frame :
      f.sta.node 1 ≡ 0
      → Returns
          (λ (a, f'). (i : ℕ) → IsPage f.sta i → page (dealloc_frame f' a).sta i ≡ page f.sta i)
          (alloc_frame f)
  unfolding dealloc_frame
  dealloc_frame-alloc_frame root = Returns-mono (alloc_frame-Cleared root) λ (a, f') c.
      let range : IsPage f'.sta (a / page_size) = ground (arith, c.sets.same_range, c.range) in
      let freed = dealloc-Sets f'.sta (a / page_size) c.sets.valid range c.sets.now in
      Sets-restore f.sta f'.sta (dealloc f'.sta (a / page_size)) (a / page_size) c.range c.was_free
        c.sets freed
