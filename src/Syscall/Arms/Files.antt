-- ===== src/Syscall/Arms/Files.antt =====
-- kernel/src/usertest.rs, syscall_dispatch(): what holds of the arms on descriptors.
use spikeling_os.Base.{ℕ, refl, ◌++◌, Option, none, some, if◌then◌else◌, ◌==◌, to_le_bytes}
use spikeling_os.Base.Branch.{if-either, option-either}
use spikeling_os.Base.Utf8.{is_utf8}
use spikeling_os.Process.Fds.{open_file, read_fd, write_fd}
use spikeling_os.Process.Ends.{pipe_create, close_fd, dup_fd, dup2_fd}
use spikeling_os.Process.Heap.{heap_start}
use spikeling_os.Process.Refs.Calls
use spikeling_os.Process.Space.{Paging}
use spikeling_os.Process.Machine.{Machine}
use spikeling_os.Syscall.{
  SyscallRegs, max_write_len, max_path_len, max_fd_io_len, capped, Outcome, halts, read_byte,
  read_user, write_user, answer, for_process,
}
use spikeling_os.Syscall.Files.{
  write_out, open_path, open_call, deliver, read_call, write_bytes, fdwrite_call, close_call,
  pipe_call, dup_call, dup2_call,
}
use spikeling_os.Syscall.Arms.{StepLaws, Ends, back, stopped, answered, guarded}

module _ (pg : Paging) (child_runs : ℕ → ℕ → Machine pg → Machine pg) (m : Machine pg)
    (Q L : Machine pg → Type 0) (laws : StepLaws pg child_runs m Q L) (regs : SyscallRegs) where
  abbrev Here : Outcome pg → Type 0
  Here = Ends pg child_runs m Q L regs

  return : (v : ℕ) (m' : Machine pg) → Q m' → Here (answer pg v regs m')
  return v m' q = back pg child_runs m Q L regs _ m' refl q

  halt : Here halts
  halt = stopped pg child_runs m Q L regs

  guard : (v : ℕ) (o : Outcome pg) → Here o → Here (for_process pg v regs m o)
  guard v o h = guarded pg child_runs m Q L regs v o laws.still h

  answer_from :
      {A : Type 0} (r : Option A) (m' : Machine pg) (v : ℕ) (f : A → ℕ)
      → Q m'
      → Here (elim r [ none ↦ answer pg v regs m' | some a ↦ answer pg (f a) regs m' ])
  answer_from r m' v f q = answered pg child_runs m Q L regs r m' v f q

  pub write-Ends : Here (write_out pg regs m)
  unfolding write_out
  write-Ends =
      option-either Here (read_user pg regs.rdi 0 (capped max_write_len regs.rsi) m.space)
        (λ n. halt)
        (λ bytes e.
          if-either Here (m.active == 0)
            (λ z. back pg child_runs m Q L regs regs _ refl (laws.printed bytes))
            (λ z.
              option-either Here (read_byte pg heap_start m.space) (λ n. halt)
                (λ b q. back pg child_runs m Q L regs regs _ refl (laws.printed bytes))))

  pub open-Ends : Here (open_call pg regs m)
  unfolding open_call open_path Calls.run
  open-Ends =
      option-either Here (read_user pg regs.rdi 0 (capped max_path_len regs.rsi) m.space)
        (λ n. halt)
        (λ path e. guard _ _ (
          if-either Here (is_utf8 path)
            (λ t.
              answer_from (open_file m.active path m.kernel).0 _ _ (λ n. n)
                (laws.called (Calls.open_call m.active path)))
            (λ f. return _ _ laws.still)))

  pub read-Ends : Here (read_call pg regs m)
  unfolding read_call deliver Calls.run
  read-Ends =
      let len = capped max_fd_io_len regs.rdx in
      let step = laws.called (Calls.read_call m.active regs.rdi len) in
      guard _ _ (
        option-either Here (read_fd m.active regs.rdi len m.kernel).0 (λ n. return _ _ step)
          (λ bytes e.
            option-either Here (write_user pg regs.rsi 0 bytes m.space) (λ n. halt)
              (λ s q. return _ _ (laws.stored (Calls.read_call m.active regs.rdi len) _ _ s q))))

  pub fdwrite-Ends : Here (fdwrite_call pg regs m)
  unfolding fdwrite_call write_bytes Calls.run
  fdwrite-Ends = guard _ _ (
      option-either Here (read_user pg regs.rsi 0 (capped max_fd_io_len regs.rdx) m.space)
        (λ n. halt)
        (λ bytes e.
          answer_from (write_fd m.active regs.rdi bytes m.kernel).0 _ _ (λ n. n)
            (laws.called (Calls.write_call m.active regs.rdi bytes))))

  pub close-Ends : Here (close_call pg regs m)
  unfolding close_call Calls.run
  close-Ends = guard _ _ (
      answer_from (close_fd m.active regs.rdi m.kernel).0 _ _ (λ saved. if saved then 0 else 2)
        (laws.called (Calls.close_call m.active regs.rdi)))

  pub pipe-Ends : Here (pipe_call pg regs m)
  unfolding pipe_call Calls.run
  pipe-Ends =
      let step = laws.called (Calls.pipe_call m.active) in
      guard _ _ (
        option-either Here (pipe_create m.active m.kernel).0 (λ n. return _ _ step)
          (λ (r, w) e.
            option-either Here
              (write_user pg regs.rdi 0 (to_le_bytes 8 r ++ to_le_bytes 8 w) m.space) (λ n. halt)
              (λ s q. return _ _ (laws.stored (Calls.pipe_call m.active) _ _ s q))))

  pub dup-Ends : Here (dup_call pg regs m)
  unfolding dup_call Calls.run
  dup-Ends = guard _ _ (
      answer_from (dup_fd m.active regs.rdi m.kernel).0 _ _ (λ n. n)
        (laws.called (Calls.dup_call m.active regs.rdi)))

  pub dup2-Ends : Here (dup2_call pg regs m)
  unfolding dup2_call Calls.run
  dup2-Ends = guard _ _ (
      answer_from (dup2_fd m.active regs.rdi regs.rsi m.kernel).0 _ _ _
        (laws.called (Calls.dup2_call m.active regs.rdi regs.rsi)))
