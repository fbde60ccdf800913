-- ===== src/Scheduler.antt =====
-- kernel/rrscheduler.c: the round-robin scheduler. The runnable threads form a doubly linked
-- ring through an array; entry 0 is the dummy head and thread `tid` has entry `tid + 1`.
-- An `int` that is an entry or a thread number is never negative here; the -1 that
-- `schedulerPop` returns is `none`. `time` is a `usize`, so its decrement wraps at 2 ^ 64.
pub mod Interface
pub mod Ring
pub mod Tests
use moonix.Base.{
  ℕ, ◌+◌, ◌-◌, ◌%◌, ◌^◌, Bool, true, false, Option, none, some, ltb, ◌==◌, if◌then◌else◌, update,
  Run, ok, panic,
}

pub record RrInfo : Type 0 where
  pub valid : ℕ
  pub time : ℕ
  pub prev : ℕ
  pub next : ℕ

pub record RrScheduler : Type 0 where
  pub threads : ℕ → RrInfo
  pub max_time : ℕ
  pub current : ℕ

abbrev pub max_thread : ℕ
max_thread = 0x40

abbrev pub set_valid : (ℕ → RrInfo) → ℕ → ℕ → ℕ → RrInfo
set_valid t i v = update t i (record (t i) { valid = v })

abbrev pub set_time : (ℕ → RrInfo) → ℕ → ℕ → ℕ → RrInfo
set_time t i v = update t i (record (t i) { time = v })

abbrev pub set_prev : (ℕ → RrInfo) → ℕ → ℕ → ℕ → RrInfo
set_prev t i v = update t i (record (t i) { prev = v })

abbrev pub set_next : (ℕ → RrInfo) → ℕ → ℕ → ℕ → RrInfo
set_next t i v = update t i (record (t i) { next = v })

unfoldable pub scheduler_init : RrScheduler → RrScheduler
scheduler_init s = record {
  threads = update s.threads 0 (record { valid = 0; time = 0; prev = 0; next = 0 });
  max_time = 1;
  current = 0;
}

-- The writes of `schedulerPush` at entry `tid`, in the order of the code.
unfoldable pub link : RrScheduler → ℕ → RrScheduler
link s tid =
    let t0 = if (s.threads tid).time == 0 then set_time s.threads tid s.max_time else s.threads in
    let prev = (t0 0).prev in
    let t1 = set_valid t0 tid 1 in
    let t2 = set_next t1 prev tid in
    let t3 = set_prev t2 tid prev in
    let t4 = set_prev t3 0 tid in record s { threads = set_next t4 tid 0 }

unfoldable pub scheduler_push : RrScheduler → ℕ → Run RrScheduler
scheduler_push s n =
    let tid = n + 1 in if ltb (max_thread + 1) (tid + 1) then panic else ok (link s tid)

-- The writes of `schedulerPop` that take entry `ret` out of the ring.
unfoldable pub unlink : RrScheduler → ℕ → RrScheduler
unlink s ret =
    let next = (s.threads ret).next in
    let prev = (s.threads ret).prev in
    let t1 = set_prev s.threads next prev in
    let t2 = set_next t1 prev next in
    let t3 = set_prev t2 ret 0 in
    let t4 = set_next t3 ret 0 in record s { threads = set_valid t4 ret 0; current = ret }

unfoldable pub scheduler_pop : RrScheduler → Option ℕ × RrScheduler
scheduler_pop s =
    let ret = (s.threads 0).next in if ret == 0 then (none, s) else (some (ret - 1), unlink s ret)

unfoldable pub scheduler_tick : RrScheduler → Bool × RrScheduler
scheduler_tick s =
    let tid = s.current in
    let left = ((s.threads tid).time + 2 ^ 64 - 1) % 2 ^ 64 in
    if tid == 0 then (true, s) else (left == 0, record s { threads = set_time s.threads tid left })

unfoldable pub scheduler_exit : RrScheduler → ℕ → RrScheduler
scheduler_exit s n = let tid = n + 1 in if s.current == tid then record s { current = 0 } else s
