-- ===== src/Syscall/Tests.antt =====
-- Calls of the thread of the round-robin scheduler that runs, on the image with `/bin/sh`.
use moonix.Base.{◌≡◌, refl, arith, true, false, none, some, [], ◌>>=◌, Returns, ltb, if◌then◌else◌}
use moonix.Condition.Tests.{running_world, untyped}
use moonix.Files.Tests.{image}
use moonix.Launch.Tests.{store}
use moonix.Queue.{is_empty}
use moonix.Queue.Chain.{Holds}
use moonix.Queue.Tests.{kernel_objects, empty-Holds, room}
use moonix.Scheduler.Interface.{round_robin, rr}
use moonix.Context.{InterruptContext}
use moonix.Launch.Tests.{setting}
use moonix.Syscall.{
  user_env_call, supervisor_external, sys_read, with_value, skip, handle_interrupt, Kernel,
  with_thread,
}
use moonix.Syscall.Keyboard.{handle_interrupt-typed}
use moonix.Thread.{Thread}

-- The running thread has the descriptors 0 to 2, and 3 at the root.
abbrev calling : Thread
calling = record {
  context_addr = 0;
  kstack = 0;
  process = record {
    satp = 0;
    o_file = λ i. record { fd_type = 1; inode = some 2; offset = 0 };
    fd_occupied = λ i. if ltb i 4 then true else false;
  };
  wait = none;
}

abbrev kernel : Kernel kernel_objects round_robin
kernel =
    with_thread kernel_objects round_robin
      (record { world = running_world; stdin = untyped; store = store; image = image; output = [] })
      calling

abbrev context : InterruptContext
context = record { x = λ i. i; sstatus = 0; sepc = 4096 }

nobody : is_empty (untyped.pushed.wait_queue) ≡ true
unfolding is_empty
nobody = refl

-- The Enter key.
handle_interrupt-typed_example :
    Returns
      (λ (reader', char, s').
        (reader' ≡ with_value (skip 4 context) (some 1))
        × (char ≡ some 10)
        × Holds kernel_objects (s'.stdin.buf) (s'.world.nodes) []
        × (s'.world.cpu ≡ kernel.world.cpu))
      (handle_interrupt kernel_objects round_robin setting
          (λ i. 0)
          600
          (supervisor_external 13)
          context
          kernel
        >>= λ (context', char, s1).
            handle_interrupt kernel_objects round_robin setting
              (λ i. 0)
              600
              (user_env_call (some (sys_read 0)))
              context
              s1)
handle_interrupt-typed_example =
    handle_interrupt-typed kernel_objects round_robin rr setting (λ i. 0) kernel context context 13
      600 0 [] (omega arith) (omega arith) empty-Holds nobody room
