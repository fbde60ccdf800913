-- ===== src/Thread/Tests.antt =====
-- File descriptors of a concrete thread.
use moonix.Base.{◌≡◌, refl, none, some, ltb}
use moonix.Thread.{Thread, alloc_fd}

-- The first 5 descriptors are taken.
abbrev pub sample : Thread
sample = record {
  context_addr = 0;
  kstack = 0x8020_0000;
  process = record {
    satp = 0;
    o_file = λ _. record { fd_type = 0; inode = none; offset = 0 };
    fd_occupied = λ i. ltb i 5;
  };
  wait = none;
}

fifth : alloc_fd sample ≡ some 5
unfolding alloc_fd
fifth = refl
