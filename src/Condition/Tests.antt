-- ===== src/Condition/Tests.antt =====
-- A thread of the round-robin scheduler that waits for a character.
use moonix.Base.{◌≡◌, arith, [], ◌∷◌, Returns}
use moonix.Condition.{Condvar, Stdin, World, notify_condition}
use moonix.Condition.Wakeups.{Waits, notify_condition-wakes}
use moonix.Processor.Tests.{busy, busy-IsValid, asleep, asleep-IsValid, asleep_slot}
use moonix.Queue.Tests.{
  kernel_objects, no_nodes, empty, empty-Holds, used_heap, single, single-Holds,
}
use moonix.Scheduler.Interface.{round_robin, rr}
use moonix.Thread.{ready}

abbrev pub idle_condition : Condvar
idle_condition = record { wait_queue = empty }

abbrev pub running_world : World kernel_objects round_robin
running_world = record { cpu = busy; nodes = no_nodes }

nobody-Waits : Waits kernel_objects round_robin rr idle_condition running_world [] []
nobody-Waits = record { cpu = busy-IsValid; waiting = empty-Holds }

-- Thread 0 sleeps, and waits.
abbrev sleeping_world : World kernel_objects round_robin
sleeping_world = record {
  cpu = asleep;
  nodes = record { memory = λ p. record { item = 0; next = 0 }; heap = used_heap };
}

abbrev condition : Condvar
condition = record { wait_queue = single }

thread-Waits : Waits kernel_objects round_robin rr condition sleeping_world [] (0 ∷ [])
thread-Waits = record { cpu = asleep-IsValid; waiting = single-Holds 0 }

notify_condition-wakes_example :
    Returns
      (λ (self', w').
        Waits kernel_objects round_robin rr self' w' (0 ∷ []) []
        × ((w'.cpu.pool.threads 0).status ≡ ready)
        × (w'.cpu.current ≡ sleeping_world.cpu.current))
      (notify_condition kernel_objects round_robin condition sleeping_world)
notify_condition-wakes_example =
    notify_condition-wakes kernel_objects round_robin rr condition sleeping_world [] [] 0
      thread-Waits (omega arith) (asleep_slot.0) (asleep_slot.1)

abbrev pub untyped : Stdin
untyped = record { buf = empty; pushed = idle_condition }
