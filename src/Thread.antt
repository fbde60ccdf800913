-- ===== src/Thread.antt =====
-- kernel/thread.h and the file descriptors of kernel/thread.c: what the kernel keeps of a thread.
-- An address is a number; NULL for an inode, and the -1 of `wait`, `allocFd` and `tid`, are `none`.
-- A C flag that is only tested is a `Bool`.
pub mod Descriptors
pub mod Tests
use moonix.Base.{ℕ, zero, suc, ◌+◌, Bool, true, false, Option, none, some, update, if◌then◌else◌}

-- `File` (kernel/file.h): `fd_type` is 0 for FD_NONE and 1 for FD_INODE.
pub record File : Type 0 where
  pub fd_type : ℕ
  pub inode : Option ℕ
  pub offset : ℕ

pub record Process : Type 0 where
  pub satp : ℕ
  pub o_file : ℕ → File
  pub fd_occupied : ℕ → Bool

pub record Thread : Type 0 where
  pub context_addr : ℕ
  pub kstack : ℕ
  pub process : Process
  pub wait : Option ℕ

pub data Status : Type 0 where
  ready running sleeping exited : Status

pub record ThreadInfo : Type 0 where
  pub status : Status
  pub tid : ℕ
  pub occupied : Bool
  pub thread : Thread

pub record RunningThread : Type 0 where
  pub tid : ℕ
  pub thread : Thread

-- The loop of `allocFd`: `rounds` descriptors from `i` on are left to try.
unfoldable pub free_fd : (ℕ → Bool) → ℕ → ℕ → Option ℕ
free_fd fds zero i = none
free_fd fds (suc rounds) i =
    let later = free_fd fds rounds (i + 1) in if fds i then later else some i

unfoldable pub alloc_fd : Thread → Option ℕ
unfolding free_fd
alloc_fd t = free_fd t.process.fd_occupied 16 0

unfoldable pub dealloc_fd : Thread → ℕ → Thread
dealloc_fd t fd =
    let p = t.process in
    record t { process = record p { fd_occupied = update p.fd_occupied fd false } }
