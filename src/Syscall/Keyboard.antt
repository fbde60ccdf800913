-- ===== src/Syscall/Keyboard.antt =====
-- From the interrupt of the keyboard (kernel/interrupt.c) to the program that reads (kernel/syscall.c).
use moonix.Base.{
  ℕ, ◌-◌, ◌%◌, ◌^◌, ◌<◌, ◌≡◌, ◌≢◌, refl, ◌∙◌, arith, true, false, some, List, [], ◌∷◌, ◌++◌, ok,
  ◌>>=◌, Returns, returns, Returns-bind, Returns-mono, Returns-inv, ◌==◌, if◌then◌else◌,
}
use moonix.Condition.{World, Stdin, Condvar, notify_condition, push_char}
use moonix.Condition.Wakeups.{pop_char-cons}
use moonix.Heap.Interface.{Allocator}
use moonix.Queue.{is_empty}
use moonix.Queue.Chain.{Holds, push_back-snoc}
use moonix.Scheduler.Interface.{Scheduler, Laws}
use moonix.Context.{InterruptContext}
use moonix.Launch.{Setting}
use moonix.Syscall.{
  supervisor_external, user_env_call, sys_read, with_value, skip, syscall, handle_syscall,
  handle_interrupt, Kernel, external, read_char,
}

-- The character that a program gets for what the firmware returns: a new line for the Enter key.
abbrev pub typed : ℕ → ℕ
typed ret = if ret % 256 == 13 then 10 else ret % 256

-- The oldest of the characters, of which the last one is `ch`.
abbrev pub oldest : List ℕ → ℕ → ℕ
oldest [] ch = ch
oldest (c ∷ cs) ch = c

abbrev pub others : List ℕ → ℕ → List ℕ
others [] ch = []
others (c ∷ cs) ch = cs ++ ch ∷ []

oldest-others : (cs : List ℕ) (ch : ℕ) → cs ++ ch ∷ [] ≡ oldest cs ch ∷ others cs ch
oldest-others [] ch = refl
oldest-others (c ∷ cs) ch = refl

module _ (a : Allocator) (sch : Scheduler) (laws : Laws sch) where
  notify_condition-alone :
      (self : Condvar) (w : World a sch)
      → is_empty (self.wait_queue) ≡ true
      → notify_condition a sch self w ≡ ok (self, w)
  unfolding notify_condition
  notify_condition-alone self w alone = rw alone refl

  push_char-Holds :
      (stdin : Stdin) (w : World a sch) (ch : ℕ) (cs : List ℕ)
      → Holds a (stdin.buf) (w.nodes) cs
      → is_empty (stdin.pushed.wait_queue) ≡ true
      → a.Room (w.nodes.heap)
      → Returns
          (λ (stdin', w'). Holds a (stdin'.buf) (w'.nodes) (cs ++ ch ∷ []) × (w'.cpu ≡ w.cpu))
          (push_char a sch stdin w ch)
  unfolding push_char
  push_char-Holds stdin w ch cs held alone room =
      Returns-bind (push_back-snoc a (stdin.buf) (w.nodes) ch cs held room) (λ (q, nodes) held'.
        rw (notify_condition-alone (stdin.pushed) (record w { nodes = nodes }) alone)
          (returns (held', refl)))

  external-Holds :
      (s : Kernel a sch) (ret : ℕ) (cs : List ℕ)
      → ret ≢ 2 ^ 64 - 1
      → Holds a (s.stdin.buf) (s.world.nodes) cs
      → is_empty (s.stdin.pushed.wait_queue) ≡ true
      → a.Room (s.world.nodes.heap)
      → Returns
          (λ s'.
            Holds a (s'.stdin.buf) (s'.world.nodes) (cs ++ typed ret ∷ [])
            × (s'.world.cpu ≡ s.world.cpu))
          (external a sch ret s)
  unfolding external
  external-Holds s ret cs good held alone room =
      let no_error : ret == 2 ^ 64 - 1 ≡ false = ground arith in
      rw no_error (
        Returns-bind (push_char-Holds (s.stdin) (s.world) (typed ret) cs held alone room)
          (λ (stdin, world) r. returns r))

  typed-Holds :
      (k : Setting) (buf : ℕ → ℕ) (s : Kernel a sch) (context : InterruptContext) (ret sp : ℕ)
      (cs : List ℕ)
      → ret ≢ 2 ^ 64 - 1
      → Holds a (s.stdin.buf) (s.world.nodes) cs
      → is_empty (s.stdin.pushed.wait_queue) ≡ true
      → a.Room (s.world.nodes.heap)
      → Returns
          (λ (context', char, s').
            Holds a (s'.stdin.buf) (s'.world.nodes) (cs ++ typed ret ∷ [])
            × (s'.world.cpu ≡ s.world.cpu))
          (handle_interrupt a sch k buf sp (supervisor_external ret) context s)
  unfolding handle_interrupt
  typed-Holds k buf s context ret sp cs good held alone room =
      Returns-bind (external-Holds s ret cs good held alone room) (λ s' h. returns h)

  read_char-oldest :
      (s : Kernel a sch) (sp ch : ℕ) (cs : List ℕ)
      → Holds a (s.stdin.buf) (s.world.nodes) (ch ∷ cs)
      → ch < 256
      → Returns
          (λ (got, s').
            (got ≡ some ch)
            × Holds a (s'.stdin.buf) (s'.world.nodes) cs
            × (s'.world.cpu ≡ s.world.cpu))
          (read_char a sch sp s)
  unfolding read_char
  read_char-oldest s sp ch cs held byte =
      Returns-bind (pop_char-cons a sch laws (s.stdin) (s.world) sp ch cs held byte)
        (λ (got, stdin, world) (is_ch, rest, _, cpu). returns (is_ch, rest, cpu))

  -- A call of `sysRead` by a program with a context, while the buffer holds characters.
  sys_read-oldest :
      (k : Setting) (buf : ℕ → ℕ) (sp fd ch : ℕ) (context : InterruptContext) (s : Kernel a sch)
      (cs : List ℕ)
      → Holds a (s.stdin.buf) (s.world.nodes) (ch ∷ cs)
      → ch < 256
      → Returns
          (λ (context', char, s').
            (context' ≡ with_value (skip 4 context) (some 1))
            × (char ≡ some ch)
            × Holds a (s'.stdin.buf) (s'.world.nodes) cs
            × (s'.world.cpu ≡ s.world.cpu))
          (handle_interrupt a sch k buf sp (user_env_call (some (sys_read fd))) context s)
  unfolding handle_interrupt handle_syscall syscall
  sys_read-oldest k buf sp fd ch context s cs held byte =
      let ((got, s'), e, (is_ch, rest, cpu)) =
        Returns-inv (read_char-oldest s sp ch cs held byte) in
      rw (e, is_ch) (returns (refl, refl, rest, cpu))

  -- A key for which the firmware has no error, while no thread waits for one and there is memory: the
  -- handler of the interrupt returns, and a later `sysRead` of any program gives it the oldest
  -- character, the key itself if the buffer was empty, with Enter as a new line. It returns 1 in
  -- `a0`, and the program goes on behind its call; the other characters stay in the buffer in
  -- order, and the processor is not given away.
  pub handle_interrupt-typed :
      (k : Setting) (buf : ℕ → ℕ) (s : Kernel a sch) (context reader : InterruptContext)
      (ret sp fd : ℕ) (cs : List ℕ)
      → ret ≢ 2 ^ 64 - 1
      → oldest cs (typed ret) < 256
      → Holds a (s.stdin.buf) (s.world.nodes) cs
      → is_empty (s.stdin.pushed.wait_queue) ≡ true
      → a.Room (s.world.nodes.heap)
      → Returns
          (λ (reader', char, s').
            (reader' ≡ with_value (skip 4 reader) (some 1))
            × (char ≡ some (oldest cs (typed ret)))
            × Holds a (s'.stdin.buf) (s'.world.nodes) (others cs (typed ret))
            × (s'.world.cpu ≡ s.world.cpu))
          (handle_interrupt a sch k buf sp (supervisor_external ret) context s
            >>= λ (context', char, s1).
                handle_interrupt a sch k buf sp (user_env_call (some (sys_read fd))) reader s1)
  handle_interrupt-typed k buf s context reader ret sp fd cs good byte held alone room =
      Returns-bind (typed-Holds k buf s context ret sp cs good held alone room)
        (λ (context', char, s1) (held1, cpu1).
          let held2 = rw (oldest-others cs (typed ret)) at held1 in
          Returns-mono
            (sys_read-oldest k buf sp fd (oldest cs (typed ret)) reader s1 (others cs (typed ret))
              held2 byte)
            (λ (reader', got, s2) (context2, is_oldest, rest, cpu2).
              (context2, is_oldest, rest, cpu2 ∙ cpu1)))
