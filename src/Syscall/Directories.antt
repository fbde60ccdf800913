-- ===== src/Syscall/Directories.antt =====
-- File descriptors over the system calls of kernel/syscall.c: open, close and cd.
use moonix.Base.{ℕ, ◌<◌, ◌≡◌, ◌≢◌, true, false, Option, none, some, [], ◌∷◌, ◌++◌}
use moonix.Files.{type_dir}
use moonix.Heap.Interface.{Allocator}
use moonix.Scheduler.Interface.{Scheduler}
use moonix.Syscall.{
  cd_not_found, is_not_directory, Kernel, current_thread, current_inode, close_file,
}
use moonix.Thread.{alloc_fd}

module _ (a : Allocator) (sch : Scheduler) where
  -- The descriptors of the running thread, but for what `fd` stands for, are as before.
  pub record OnlyFile (s : Kernel a sch) (fd : ℕ) (s' : Kernel a sch) : Type 0 where
    pub files :
        (fd' : ℕ)
        → fd ≢ fd'
        → (current_thread a sch s').process.o_file fd' ≡ (current_thread a sch s).process.o_file fd'
    pub occupied :
        (current_thread a sch s').process.fd_occupied ≡ (current_thread a sch s).process.fd_occupied
    pub image : s'.image ≡ s.image
    pub output : s'.output ≡ s.output

  -- What `cd` makes of a path: where it leads to nothing, or to a file, only a message; else the
  -- descriptor stands at the directory.
  pub data Moved (s : Kernel a sch) (fd : ℕ) : Option ℕ → Kernel a sch → Type 0 where
    lost : Moved s fd none (record s { output = s.output ++ cd_not_found ∷ [] })
    no_dir :
        {d : ℕ}
        → (s.image.inode d).kind ≢ type_dir
        → Moved s fd
            (some d)
            (record s { output = s.output ++ is_not_directory ((s.image.inode d).filename) ∷ [] })
    stands :
        {d : ℕ} {s' : Kernel a sch}
        → (s.image.inode d).kind ≡ type_dir
        → current_inode a sch s' fd ≡ some d
        → OnlyFile s fd s'
        → Moved s fd (some d) s'

  -- What a file that has been opened says.
  pub record Opened (s : Kernel a sch) (inode : Option ℕ) (fd : ℕ) (s' : Kernel a sch)
      : Type 0 where
    pub bound : fd < 16
    pub lowest : (fd' : ℕ) → fd' < fd → (current_thread a sch s).process.fd_occupied fd' ≡ true
    pub was_free : (current_thread a sch s).process.fd_occupied fd ≡ false
    pub taken : (current_thread a sch s').process.fd_occupied fd ≡ true
    pub inode_of : current_inode a sch s' fd ≡ inode
    pub others :
        (fd' : ℕ)
        → fd ≢ fd'
        → (current_thread a sch s').process.o_file fd' ≡ (current_thread a sch s).process.o_file fd'
    pub others_occupied :
        (fd' : ℕ)
        → fd ≢ fd'
        → (current_thread a sch s').process.fd_occupied fd'
          ≡ (current_thread a sch s).process.fd_occupied fd'
    pub image : s'.image ≡ s.image
    pub output : s'.output ≡ s.output
    pub again : alloc_fd (current_thread a sch (close_file a sch fd s')) ≡ some fd
