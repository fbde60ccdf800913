-- ===== src/Condition.antt =====
-- kernel/condition.c, kernel/condition.h, kernel/stdin.c and kernel/stdin.h: a condition variable
-- is the queue of the threads that wait for it, and standard input is a queue of characters with
-- the condition that there is one. The processor and the memory of the queues' nodes are what
-- the functions act on; `sp` is where the stack of a thread that is switched away ends.
pub mod Tests
pub mod Wakeups
use moonix.Base.{ℕ, ◌%◌, ◌^◌, Option, none, some, Run, ok, ◌>>=◌, if◌then◌else◌}
use moonix.Heap.Interface.{Allocator}
use moonix.Processor.{Processor, yield_cpu, wakeup_cpu}
use moonix.Queue.{Queue, Nodes, is_empty, push_back, pop_front}
use moonix.Scheduler.Interface.{Scheduler}

pub record Condvar : Type 0 where
  pub wait_queue : Queue

pub record Stdin : Type 0 where
  pub buf : Queue
  pub pushed : Condvar

module _ (a : Allocator) (sch : Scheduler) where
  pub record World : Type 0 where
    pub cpu : Processor sch
    pub nodes : Nodes a

  unfoldable pub wait_condition : Condvar → World → ℕ → Run (Condvar × World)
  wait_condition self w sp = do
    (q, nodes) ← push_back a (self.wait_queue) (w.cpu.current.tid) (w.nodes)
    cpu ← yield_cpu sch (w.cpu) sp
    ok (record { wait_queue = q }, record { cpu = cpu; nodes = nodes })

  unfoldable pub notify_condition : Condvar → World → Run (Condvar × World)
  notify_condition self w =
      let (tid, q, nodes) = pop_front a (self.wait_queue) (w.nodes) in
      if is_empty (self.wait_queue) then ok (self, w) else (do
        cpu ← wakeup_cpu sch (w.cpu) tid
        ok (record { wait_queue = q }, record { cpu = cpu; nodes = nodes }))

  unfoldable pub push_char : Stdin → World → ℕ → Run (Stdin × World)
  push_char stdin w ch = do
    (q, nodes) ← push_back a (stdin.buf) ch (w.nodes)
    (pushed, w') ← notify_condition (stdin.pushed) (record w { nodes = nodes })
    ok (record { buf = q; pushed = pushed }, w')

  -- One round of the loop of `popChar`: a character, or `none` when the thread has been put to
  -- sleep; it goes on with another round when it is woken.
  unfoldable pub pop_char : Stdin → World → ℕ → Run (Option ℕ × Stdin × World)
  pop_char stdin w sp =
      let (ch, q, nodes) = pop_front a (stdin.buf) (w.nodes) in
      if is_empty (stdin.buf)
      then (do
        (pushed, w') ← wait_condition (stdin.pushed) w sp
        ok (none, record stdin { pushed = pushed }, w'))
      else ok (some (ch % 2 ^ 8), record stdin { buf = q }, record w { nodes = nodes })
