-- ===== src/Condition/Wakeups.antt =====
-- Who waits, who sleeps and who runs after the functions of kernel/condition.c and
-- kernel/stdin.c, in terms of the lists that the two queues hold.
use moonix.Base.{
  ℕ, ◌<◌, ◌%◌, ◌^◌, ◌≡◌, refl, ap, ◌∙◌, arith, true, false, none, some, List, [], ◌∷◌, ◌++◌, ok,
  Returns, Returns-ok, Returns-bind, update-at,
}
use moonix.Condition.{Condvar, Stdin, World, wait_condition, notify_condition, pop_char}
use moonix.Heap.Interface.{Allocator}
use moonix.Processor.Invariant.{IsValid}
use moonix.Processor.Steps.{yield_cpu-sleeps, wakeup_cpu-queues}
use moonix.Queue.{is_empty}
use moonix.Queue.Chain.{Holds, is_empty-Holds, push_back-snoc, pop_front-cons}
use moonix.Scheduler.{max_thread}
use moonix.Scheduler.Interface.{Scheduler, Laws}
use moonix.Thread.{sleeping, ready}

module _ (a : Allocator) (sch : Scheduler) (laws : Laws sch) where
  -- The processor is valid with the queue `q` of runnable threads, and `ts` wait.
  pub record Waits (self : Condvar) (w : World a sch) (q ts : List ℕ) : Type 0 where
    pub cpu : IsValid sch laws (w.cpu) q
    pub waiting : Holds a (self.wait_queue) (w.nodes) ts

  -- `waitCondition` puts the running thread behind those that wait, asleep, and gives the
  -- processor away.
  pub wait_condition-sleeps :
      (self : Condvar) (w : World a sch) (sp : ℕ) (q ts : List ℕ)
      → Waits self w q ts
      → a.Room (w.nodes.heap)
      → w.cpu.occupied ≡ true
      → Returns
          (λ (self', w').
            Waits self' w' q (ts ++ w.cpu.current.tid ∷ [])
            × (w'.cpu.occupied ≡ false)
            × ((w'.cpu.pool.threads (w.cpu.current.tid)).status ≡ sleeping))
          (wait_condition a sch self w sp)
  unfolding wait_condition
  wait_condition-sleeps self w sp q ts v room busy =
      Returns-bind
        (push_back-snoc a (self.wait_queue) (w.nodes) (w.cpu.current.tid) ts (v.waiting) room)
        (λ (wq, nodes) held.
          Returns-bind (yield_cpu-sleeps sch laws (w.cpu) sp q (v.cpu) busy) (λ cpu slept.
            Returns-ok refl
              (record { cpu = slept.0; waiting = held }, slept.1.0, ap (λ t. t.status) (slept.3))))

  -- If the thread that has waited longest sleeps in a taken slot, `notifyCondition` takes it off the
  -- wait queue, makes it ready and puts it at the end of the queue of runnable threads; the
  -- processor stays valid, and its running thread is as before.
  pub notify_condition-wakes :
      (self : Condvar) (w : World a sch) (q ts : List ℕ) (t : ℕ)
      → Waits self w q (t ∷ ts)
      → t < max_thread
      → (w.cpu.pool.threads t).occupied ≡ true
      → (w.cpu.pool.threads t).status ≡ sleeping
      → Returns
          (λ (self', w').
            Waits self' w' (q ++ t ∷ []) ts
            × ((w'.cpu.pool.threads t).status ≡ ready)
            × (w'.cpu.current ≡ w.cpu.current))
          (notify_condition a sch self w)
  unfolding notify_condition
  notify_condition-wakes self w q ts t v bound taken sleeps =
      let some_wait : is_empty (self.wait_queue) ≡ false =
        is_empty-Holds a (self.wait_queue) (w.nodes) (t ∷ ts) (v.waiting) ∙ ground arith in
      let (e, held) = pop_front-cons a (self.wait_queue) (w.nodes) t ts (v.waiting) in
      rw (some_wait, e)
        (Returns-bind (wakeup_cpu-queues sch laws (w.cpu) t q (v.cpu) bound taken sleeps)
          (λ cpu woken. Returns-ok refl (
            record { cpu = woken.0; waiting = held },
            ap (λ f. (f t).status) (woken.2)
                ∙ ap (λ i. i.status) (update-at (w.cpu.pool.threads) t _),
            woken.3,
          )))

  -- With nobody waiting `notifyCondition` does nothing.
  pub notify_condition-nil :
      (self : Condvar) (w : World a sch) (q : List ℕ)
      → Waits self w q []
      → notify_condition a sch self w ≡ ok (self, w)
  unfolding notify_condition
  notify_condition-nil self w q v =
      let none_wait : is_empty (self.wait_queue) ≡ true =
        is_empty-Holds a (self.wait_queue) (w.nodes) [] (v.waiting) ∙ refl in
      rw none_wait refl

  -- `popChar` takes the oldest character, while there is one.
  pub pop_char-cons :
      (stdin : Stdin) (w : World a sch) (sp ch : ℕ) (cs : List ℕ)
      → Holds a (stdin.buf) (w.nodes) (ch ∷ cs)
      → ch < 2 ^ 8
      → Returns
          (λ (got, stdin', w').
            (got ≡ some ch)
            × Holds a (stdin'.buf) (w'.nodes) cs
            × (stdin'.pushed ≡ stdin.pushed)
            × (w'.cpu ≡ w.cpu))
          (pop_char a sch stdin w sp)
  unfolding pop_char
  pop_char-cons stdin w sp ch cs held byte =
      let some_chars : is_empty (stdin.buf) ≡ false =
        is_empty-Holds a (stdin.buf) (w.nodes) (ch ∷ cs) held ∙ ground arith in
      let (e, rest) = pop_front-cons a (stdin.buf) (w.nodes) ch cs held in
      let same : ch % 2 ^ 8 ≡ ch = omega arith in
      rw some_chars
        (Returns-ok refl (ap (λ c. some (c % 2 ^ 8)) e ∙ ap some same, rest, refl, refl))

  -- With no character left `popChar` puts the running thread to sleep behind those that wait.
  pub pop_char-nil :
      (stdin : Stdin) (w : World a sch) (sp : ℕ) (q ts : List ℕ)
      → Holds a (stdin.buf) (w.nodes) []
      → Waits (stdin.pushed) w q ts
      → a.Room (w.nodes.heap)
      → w.cpu.occupied ≡ true
      → Returns
          (λ (got, stdin', w').
            (got ≡ none)
            × Waits (stdin'.pushed) w' q (ts ++ w.cpu.current.tid ∷ [])
            × (w'.cpu.occupied ≡ false)
            × ((w'.cpu.pool.threads (w.cpu.current.tid)).status ≡ sleeping))
          (pop_char a sch stdin w sp)
  unfolding pop_char
  pop_char-nil stdin w sp q ts held v room busy =
      let no_chars : is_empty (stdin.buf) ≡ true =
        is_empty-Holds a (stdin.buf) (w.nodes) [] held ∙ refl in
      rw no_chars (
        Returns-bind (wait_condition-sleeps (stdin.pushed) w sp q ts v room busy)
          (λ (pushed, w') slept. Returns-ok refl (refl, slept.0, slept.1, slept.2)))
