-- ===== src/Launch/Tests.antt =====
-- A kernel thread made in a heap of which nothing is used, for kernel/thread.c.
use moonix.Base.{arith, false, none}
use moonix.Heap.{BuddyTree, buddy_init}
use moonix.Heap.Bits.{pow2}
use moonix.Heap.Init.{buddy_init-IsBuddy}
use moonix.Heap.Kalloc.{IsHeap}
use moonix.Launch.{Store, Setting, heap_of, new_kernel_thread}
use moonix.Launch.Stacks.{IsSetting, Made, new_kernel_thread-Made}

abbrev pub setting : Setting
setting = record {
  heap_base = 0x8000_0000;
  symbols = record {
    text_start = 0;
    rodata_start = 0;
    data_start = 0;
    bss_start = 0;
    kernel_end = 0;
  };
  restore = 55;
  idle_main = 66;
  satp = 7;
  sstatus = 0x100;
  junk = record { x = λ i. 3; sstatus = 3; sepc = 3 };
  junk_s = λ i. 3;
  junk_files = λ i. record { fd_type = 9; inode = none; offset = 9 };
  junk_fds = λ i. false;
}

setting-IsSetting : IsSetting setting
setting-IsSetting = record {
  contexts = record {
    x = λ i. omega arith;
    sstatus = omega arith;
    sepc = omega arith;
    ra = omega arith;
    satp = omega arith;
    s = λ i. omega arith;
  };
  sstatus = omega arith;
  heap = omega arith;
}

abbrev blank_tree : BuddyTree
blank_tree = record { size = 0; longest = λ i. 0 }

abbrev pub store : Store
store = record {
  tree = buddy_init blank_tree (pow2 17);
  frames = record {
    sta = record { node = λ i. 0; first_single = 1; length = 1; start_ppn = 0 };
    memory = λ a. 7;
  };
}

store-IsHeap : IsHeap (heap_of store)
store-IsHeap =
    let (sized, _, holds) = buddy_init-IsBuddy 17 blank_tree in
    record { sized = sized; buddy = holds }

new_kernel_thread-Made_example : Made setting 4000 store (new_kernel_thread setting 4000 store)
new_kernel_thread-Made_example =
    new_kernel_thread-Made setting 4000 store setting-IsSetting (omega arith) store-IsHeap
