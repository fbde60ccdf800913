-- ===== src/Context.antt =====
-- The contexts of kernel/context.h and kernel/thread.c: how a new thread's first stack frames are
-- made, and kernel/switch.asm and the two halves of kernel/interrupt.asm, which save and restore
-- them. Memory is indexed by the addresses that the kernel uses, which all address spaces map
-- alike. Of a hart a `Hart` has the registers that these touch; `x 0` is not used.
pub mod Bits
pub mod Layout
pub mod Frames
pub mod Returns
pub mod Starts
pub mod Switches
pub mod Traps
mod Tests
use moonix.Base.{
  ℕ, zero, suc, ◌+◌, ◌-◌, ◌*◌, ◌/◌, ◌%◌, ◌^◌, Bool, true, false, ◌&&◌, ◌||◌, not, update, ltb, leb,
  ◌==◌, if◌then◌else◌,
}
use Prim.Native.Nat.{bit_and, bit_or}
use moonix.Paging.{load, store}

abbrev pub sstatus_spp : ℕ
sstatus_spp = 0x100

abbrev pub sstatus_spie : ℕ
sstatus_spie = 0x20

abbrev pub sstatus_sie : ℕ
sstatus_sie = 0x2

-- `~x` for a word of 64 bits.
abbrev pub complement : ℕ → ℕ
complement x = 2 ^ 64 - 1 - x

pub record InterruptContext : Type 0 where
  pub x : ℕ → ℕ
  pub sstatus : ℕ
  pub sepc : ℕ

pub record ThreadContext : Type 0 where
  pub ra : ℕ
  pub satp : ℕ
  pub s : ℕ → ℕ

-- The words of the two structures, in order.
abbrev pub interrupt_word : InterruptContext → ℕ → ℕ
interrupt_word ic i = if ltb i 32 then ic.x i else if i == 32 then ic.sstatus else ic.sepc

abbrev pub thread_word : ThreadContext → ℕ → ℕ
thread_word tc i = if i == 0 then tc.ra else if i == 1 then tc.satp else tc.s (i - 2)

abbrev pub interrupt_size : ℕ
interrupt_size = 272

abbrev pub thread_size : ℕ
thread_size = 112

unfoldable pub store_words : (ℕ → ℕ) → ℕ → ℕ → (ℕ → ℕ) → ℕ → ℕ
store_words memory a zero w = memory
store_words memory a (suc n) w = store (store_words memory a n w) (a + 8 * n) 8 (w n)

abbrev pub word : (ℕ → ℕ) → ℕ → ℕ
word memory a = load memory a 8

-- With the memory in which both contexts lie below `stack_top`.
unfoldable pub push_context_to_stack : ThreadContext → InterruptContext → ℕ → (ℕ → ℕ) → ℕ × (ℕ → ℕ)
unfolding store_words
push_context_to_stack tc ic stack_top memory =
    let ptr1 = stack_top - interrupt_size in
    let memory1 = store_words memory ptr1 34 (interrupt_word ic) in
    let ptr2 = ptr1 - thread_size in (ptr2, store_words memory1 ptr2 14 (thread_word tc))

-- The address of `__restore`, and what the stack holds where the two contexts are declared.
module _ (restore_address : ℕ) (junk : InterruptContext) (junk_s : ℕ → ℕ) where
  unfoldable pub new_kernel_thread_context : ℕ → ℕ → ℕ → ℕ → (ℕ → ℕ) → ℕ × (ℕ → ℕ)
  new_kernel_thread_context entry kernel_stack_top satp sstatus memory =
      let spp = bit_or sstatus sstatus_spp in
      let spie = bit_or spp sstatus_spie in
      let ic : InterruptContext = record {
        x = update (junk.x) 2 kernel_stack_top;
        sstatus = bit_and spie (complement sstatus_sie);
        sepc = entry;
      } in
      let tc : ThreadContext = record { ra = restore_address; satp = satp; s = junk_s } in
      push_context_to_stack tc ic kernel_stack_top memory

  unfoldable pub new_user_thread_context : ℕ → ℕ → ℕ → ℕ → ℕ → (ℕ → ℕ) → ℕ × (ℕ → ℕ)
  new_user_thread_context entry ustack_top kstack_top satp sstatus memory =
      let spp = bit_and sstatus (complement sstatus_spp) in
      let spie = bit_or spp sstatus_spie in
      let ic : InterruptContext = record {
        x = update (junk.x) 2 ustack_top;
        sstatus = bit_and spie (complement sstatus_sie);
        sepc = entry;
      } in
      let tc : ThreadContext = record { ra = restore_address; satp = satp; s = junk_s } in
      push_context_to_stack tc ic kstack_top memory

pub record Hart : Type 0 where
  pub x : ℕ → ℕ
  pub pc : ℕ
  pub satp : ℕ
  pub sscratch : ℕ
  pub sstatus : ℕ
  pub sepc : ℕ
  pub user_mode : Bool
  pub interrupts : Bool

-- The register `s_n`.
abbrev pub s_register : ℕ → ℕ
s_register n = if ltb n 2 then n + 8 else n + 16

-- Whether register `i` is one of these, and which.
abbrev pub is_saved : ℕ → Bool
is_saved i = (leb 8 i && ltb i 10) || (leb 18 i && ltb i 28)

abbrev pub saved_index : ℕ → ℕ
saved_index i = if ltb i 10 then i - 8 else i - 16

-- What kernel/switch.asm saves of the thread that is left.
abbrev pub saved_context : Hart → ThreadContext
saved_context h = record { ra = h.x 1; satp = h.satp; s = λ n. h.x (s_register n) }

-- kernel/switch.asm: `self` and `target` are the addresses of two context addresses.
unfoldable pub switch_context : ℕ → ℕ → Hart → (ℕ → ℕ) → Hart × (ℕ → ℕ)
unfolding store_words
switch_context self target h memory =
    let sp = h.x 2 - thread_size in
    let memory1 = store memory self 8 sp in
    let memory2 = store_words memory1 sp 14 (thread_word (saved_context h)) in
    let sp' = word memory2 target in
    let loaded = λ (i : ℕ).
      if i == 1
      then word memory2 sp'
      else if i == 2
      then sp' + thread_size
      else if is_saved i
      then word memory2 (sp' + 8 * (saved_index i + 2))
      else h.x i in
    (
      record h { x = loaded; pc = loaded 1; satp = word memory2 (sp' + 8) },
      store memory2 target 8 0,
    )

-- `sret`: the mode that SPP says, with interrupts as SPIE says.
abbrev pub is_set : ℕ → ℕ → Bool
is_set word bit = not (bit_and word bit == 0)

-- `__restore` of kernel/interrupt.asm, with its `sret`; `sstatus` is as it is written before that.
unfoldable pub restore : Hart → (ℕ → ℕ) → Hart
restore h memory =
    let sp = h.x 2 in
    let s1 = word memory (sp + 8 * 32) in
    let s2 = word memory (sp + 8 * 33) in
    record {
      x = λ i. if i == 0 then 0 else word memory (sp + 8 * i);
      pc = s2;
      satp = h.satp;
      sscratch = if is_set s1 sstatus_spp then h.sscratch else sp + interrupt_size;
      sstatus = s1;
      sepc = s2;
      user_mode = not (is_set s1 sstatus_spp);
      interrupts = is_set s1 sstatus_spie;
    }

-- `__interrupt` of kernel/interrupt.asm up to the call of `handleInterrupt`: where the context is,
-- and the memory with it; `sscratch` is 0 then. `sstatus` and `sepc` are as the trap has set
-- them, and the word for `x0` is not written.
unfoldable pub save : Hart → (ℕ → ℕ) → ℕ × (ℕ → ℕ)
unfolding store_words
save h memory =
    let old_sp = h.x 2 in
    let top = if h.sscratch == 0 then old_sp else h.sscratch in
    let sp = top - interrupt_size in
    let ic : InterruptContext = record { x = h.x; sstatus = h.sstatus; sepc = h.sepc } in
    (sp, store_words memory (sp + 8) 33 (λ i. interrupt_word ic (i + 1)))
