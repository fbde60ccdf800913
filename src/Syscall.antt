-- ===== src/Syscall.antt =====
-- kernel/syscall.c and kernel/interrupt.c: the system calls and the handler of interrupts. The state is
-- that of the parts that they use; what is written to the console is a list, in order. A string
-- argument is the list of its characters, a word otherwise. A call that puts the thread to
-- sleep or ends it is one step of the processor; it goes on when the thread is woken.
pub mod Directories
pub mod Keyboard
mod Tests
use moonix.Base.{
  ℕ, zero, suc, ◌+◌, ◌-◌, ◌*◌, ◌%◌, ◌^◌, Bool, true, false, Option, none, some, List, [], ◌∷◌, ◌++◌,
  Run, ok, panic, ◌>>=◌, update, ◌==◌, if◌then◌else◌, length,
}
use moonix.Condition.{World, Stdin, push_char, pop_char}
use moonix.Context.{InterruptContext}
use moonix.Files.{Image, Inode, type_dir, lookup}
use moonix.Files.Contents.{ls}
use moonix.Files.Paths.{get_inode_path}
use moonix.Heap.Interface.{Allocator}
use moonix.Launch.{Store, Setting, execute_cpu}
use moonix.Processor.{Processor, yield_cpu, exit_from_cpu, tick_cpu}
use moonix.Scheduler.Interface.{Scheduler}
use moonix.Thread.{Thread, Process, File, alloc_fd, dealloc_fd}

-- What is written to the console, and to the firmware.
pub data Output : Type 0 where
  command_not_found ls_not_found cd_not_found : Output
  is_directory : List ℕ → Output
  is_not_directory : List ℕ → Output
  listing : Option (List (List ℕ)) → Output
  line_at : ℕ → (ℕ → ℕ) → Output
  character : ℕ → Output
  breakpoint_at : ℕ → Output
  shutdown : Output

-- The calls, with their arguments.
pub data Call : Type 0 where
  sys_shutdown : Call
  sys_lsdir sys_cddir : List ℕ → ℕ → Call
  sys_open : List ℕ → Call
  sys_pwd sys_close sys_read sys_write sys_exit : ℕ → Call
  sys_exec : List ℕ → ℕ → Call

-- `context->x[10] = ret`, when the call has returned.
abbrev pub with_value : InterruptContext → Option ℕ → InterruptContext
with_value context none = context
with_value context (some v) = record context { x = update (context.x) 10 v }

abbrev pub skip : ℕ → InterruptContext → InterruptContext
skip n context = record context { sepc = (context.sepc + n) % 2 ^ 64 }

module _ (a : Allocator) (sch : Scheduler) where
  pub record Kernel : Type 0 where
    pub world : World a sch
    pub stdin : Stdin
    pub store : Store
    pub image : Image
    pub output : List Output

  -- `getCurrentThread()`
  abbrev pub current_thread : Kernel → Thread
  current_thread s = s.world.cpu.current.thread

  abbrev pub with_cpu : Kernel → Processor sch → Kernel
  with_cpu s cpu = record s { world = record (s.world) { cpu = cpu } }

  abbrev pub with_thread : Kernel → Thread → Kernel
  with_thread s t =
      let cpu = s.world.cpu in
      with_cpu s (record cpu { current = record (cpu.current) { thread = t } })

  abbrev pub print : Kernel → Output → Kernel
  print s o = record s { output = s.output ++ o ∷ [] }

  -- The inode of a descriptor of the running thread.
  abbrev pub current_inode : Kernel → ℕ → Option ℕ
  current_inode s fd = ((current_thread s).process.o_file fd).inode

  abbrev pub set_file : Kernel → ℕ → File → Bool → Kernel
  set_file s fd file used =
      let t = current_thread s in
      let p = t.process in
      with_thread s (record t {
        process = record p {
          o_file = update (p.o_file) fd file;
          fd_occupied = update (p.fd_occupied) fd used;
        };
      })

  -- `sysOpen`, once `allocFd` has found a descriptor or none.
  unfoldable pub open_at : List ℕ → Kernel → Option ℕ → Run (ℕ × Kernel)
  open_at path s none = panic
  open_at path s (some fd) = lookup (length path + 1) (s.image) none path >>= λ inode.
      ok (fd, set_file s fd (record { fd_type = 1; offset = 0; inode = inode }) true)

  unfoldable pub open_file : List ℕ → Kernel → Run (ℕ × Kernel)
  unfolding open_at
  open_file path s = open_at path s (alloc_fd (current_thread s))

  unfoldable pub close_file : ℕ → Kernel → Kernel
  close_file fd s = with_thread s (dealloc_fd (current_thread s) fd)

  -- `sysCdDir`, once `lookup` has found an inode or none.
  unfoldable pub change_to : ℕ → Kernel → Option ℕ → Kernel
  change_to fd s none = print s cd_not_found
  change_to fd s (some b) =
      let inode = s.image.inode b in
      let t = current_thread s in
      let p = t.process in
      let file = record (p.o_file fd) { inode = some b } in
      if inode.kind == type_dir
      then with_thread s (record t { process = record p { o_file = update (p.o_file) fd file } })
      else print s (is_not_directory (inode.filename))

  unfoldable pub cd_dir : List ℕ → ℕ → Kernel → Run Kernel
  unfolding change_to
  cd_dir path fd s = do
    found ← lookup (length path + 1) (s.image) (current_inode s fd) path
    ok (change_to fd s found)

  -- `sysLsDir`, once it has an inode or none.
  unfoldable pub list_at : Kernel → Option ℕ → Kernel
  list_at s none = print s ls_not_found
  list_at s (some b) = print s (listing (ls (s.image) (s.image.inode b)))

  unfoldable pub ls_dir : List ℕ → ℕ → Kernel → Run Kernel
  unfolding list_at
  ls_dir path fd s = do
    found ←
        if length path == 0
        then ok (current_inode s fd)
        else lookup (length path + 1) (s.image) (current_inode s fd) path
    ok (list_at s found)

  -- `sysPwd`; a directory is at most 256 levels deep. The code reads through a null pointer if the
  -- descriptor has no inode.
  unfoldable pub pwd : (ℕ → ℕ) → ℕ → Kernel → Run Kernel
  pwd buf fd s = do
    here ← elim (current_inode s fd) [ none ↦ panic | some b ↦ ok b ]
    (p, buf') ← get_inode_path 257 (s.image) here buf
    ok (print s (line_at p buf'))

  -- `sysExec`, once `lookup` has found an inode or none. A thread that is started makes its host sleep.
  unfoldable pub run_program : Setting → ℕ → Kernel → Option ℕ → Run Kernel
  run_program k sp s none = ok (print s command_not_found)
  run_program k sp s (some b) = do
    let inode = s.image.inode b
    (started, cpu, store) ←
        execute_cpu sch k (s.image) inode (s.world.cpu.current.tid) (s.world.cpu, s.store)
    let s1 = record (with_cpu s cpu) { store = store }
    cpu' ← if started then yield_cpu sch cpu sp else ok cpu
    ok (if started then with_cpu s1 cpu' else print s1 (is_directory (inode.filename)))

  unfoldable pub exec : Setting → List ℕ → ℕ → ℕ → Kernel → Run Kernel
  unfolding run_program
  exec k path fd sp s = do
    found ← lookup (length path + 1) (s.image) (current_inode s fd) path
    run_program k sp s found

  -- One round of `popChar`: `none` while the thread sleeps, and then it tries again.
  unfoldable pub read_char : ℕ → Kernel → Run (Option ℕ × Kernel)
  read_char sp s = do
    (ch, stdin, world) ← pop_char a sch (s.stdin) (s.world) sp
    ok (ch, record s { stdin = stdin; world = world })

  -- What goes to the caller: a value in `a0`, and the character that `sysRead` stores. Without a value
  -- the call goes on when its thread is woken, or its thread has ended. A thread that `sysExec` has put to sleep gets its
  -- value when it runs again.
  pub record Answer : Type 0 where
    pub value : Option ℕ
    pub char : Option ℕ
    pub kernel : Kernel

  abbrev pub returning : Run Kernel → Run Answer
  returning call = call >>= λ s. ok (record { value = some 0; char = none; kernel = s })

  -- `syscall`
  unfoldable pub syscall : Setting → (ℕ → ℕ) → ℕ → Call → Kernel → Run Answer
  syscall k buf sp sys_shutdown s = returning (ok (print s shutdown))
  syscall k buf sp (sys_lsdir path fd) s = returning (ls_dir path fd s)
  syscall k buf sp (sys_cddir path fd) s = returning (cd_dir path fd s)
  syscall k buf sp (sys_open path) s = do
    (fd, s') ← open_file path s
    ok (record { value = some fd; char = none; kernel = s' })
  syscall k buf sp (sys_pwd fd) s = returning (pwd buf fd s)
  syscall k buf sp (sys_close fd) s = returning (ok (close_file fd s))
  syscall k buf sp (sys_read fd) s = do
    (ch, s') ← read_char sp s
    ok (record { value = elim ch [ none ↦ none | some c ↦ some 1 ]; char = ch; kernel = s' })
  syscall k buf sp (sys_write ch) s = returning (ok (print s (character ch)))
  syscall k buf sp (sys_exit code) s = exit_from_cpu sch (s.world.cpu) sp >>= λ cpu.
      ok (record { value = none; char = none; kernel = with_cpu s cpu })
  syscall k buf sp (sys_exec path fd) s = returning (exec k path fd sp s)

  -- What the trap is for.
  pub data Cause : Type 0 where
    breakpoint supervisor_timer : Cause
    user_env_call : Option Call → Cause
    supervisor_external : ℕ → Cause
    unknown : Cause

  -- `external`, with what `consoleGetchar` has returned; -1 is an error.
  unfoldable pub external : ℕ → Kernel → Run Kernel
  external ret s =
      let ch = ret % 256 in
      let push =
        push_char a sch (s.stdin) (s.world) (if ch == 13 then 10 else ch) >>= λ (stdin, world).
        ok (record s { stdin = stdin; world = world }) in
      if ret == 2 ^ 64 - 1 then ok s else push

  -- `handleSyscall`: `none` is an id that `syscall` does not know. With the character for the caller.
  unfoldable pub handle_syscall :
      Setting
      → (ℕ → ℕ)
      → ℕ
      → Option Call
      → InterruptContext
      → Kernel
      → Run (InterruptContext × Option ℕ × Kernel)
  handle_syscall k buf sp none context s = panic
  handle_syscall k buf sp (some call) context s = syscall k buf sp call s >>= λ answer.
      ok (with_value (skip 4 context) (answer.value), answer.char, answer.kernel)

  -- `handleInterrupt`; setting the next timer is left out.
  unfoldable pub handle_interrupt :
      Setting
      → (ℕ → ℕ)
      → ℕ
      → Cause
      → InterruptContext
      → Kernel
      → Run (InterruptContext × Option ℕ × Kernel)
  unfolding handle_syscall
  handle_interrupt k buf sp breakpoint context s =
      ok (skip 2 context, none, print s (breakpoint_at (context.sepc)))
  handle_interrupt k buf sp (user_env_call call) context s = handle_syscall k buf sp call context s
  handle_interrupt k buf sp supervisor_timer context s =
      tick_cpu sch (s.world.cpu) sp >>= λ cpu. ok (context, none, with_cpu s cpu)
  handle_interrupt k buf sp (supervisor_external ret) context s =
      external ret s >>= λ s'. ok (context, none, s')
  handle_interrupt k buf sp unknown context s = panic
