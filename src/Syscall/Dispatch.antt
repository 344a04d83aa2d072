-- ===== src/Syscall/Dispatch.antt =====
-- kernel/src/usertest.rs: syscall_dispatch() itself, the match on the number in `rax`.
use spikeling_os.Base.{ℕ, ◌==◌, if◌then◌else◌}
use spikeling_os.Base.Branch.{if-either}
use spikeling_os.Process.Space.{Paging}
use spikeling_os.Process.Machine.{Machine}
use spikeling_os.Syscall.{SyscallRegs, Outcome, resumes}
use spikeling_os.Syscall.Files.{
  write_out, open_call, read_call, fdwrite_call, close_call, pipe_call, dup_call, dup2_call,
}
use spikeling_os.Syscall.Processes.{
  exit_call, sbrk_call, fork_call, wait_call, exec_call, kill_call,
}

module _ (pg : Paging) (child_runs : ℕ → ℕ → Machine pg → Machine pg) where
  -- A number that is no system call changes nothing.
  unfoldable pub syscall_dispatch : SyscallRegs → Machine pg → Outcome pg
  syscall_dispatch regs m =
      if regs.rax == 0
      then write_out pg regs m
      else if regs.rax == 1
      then exit_call pg m
      else if regs.rax == 2
      then sbrk_call pg regs m
      else if regs.rax == 3
      then open_call pg regs m
      else if regs.rax == 4
      then read_call pg regs m
      else if regs.rax == 5
      then fdwrite_call pg regs m
      else if regs.rax == 6
      then close_call pg regs m
      else if regs.rax == 7
      then fork_call pg regs m
      else if regs.rax == 8
      then wait_call pg child_runs regs m
      else if regs.rax == 9
      then exec_call pg regs m
      else if regs.rax == 10
      then pipe_call pg regs m
      else if regs.rax == 11
      then dup_call pg regs m
      else if regs.rax == 12
      then dup2_call pg regs m
      else if regs.rax == 13
      then kill_call pg regs m
      else resumes regs m

  -- A predicate on what becomes of a call, for each arm, and for the match as a whole.
  pub record OnEachArm (P : Outcome pg → Type 0) (regs : SyscallRegs) (m : Machine pg)
      : Type 0 where
    pub on_write : P (write_out pg regs m)
    pub on_exit : P (exit_call pg m)
    pub on_sbrk : P (sbrk_call pg regs m)
    pub on_open : P (open_call pg regs m)
    pub on_read : P (read_call pg regs m)
    pub on_fdwrite : P (fdwrite_call pg regs m)
    pub on_close : P (close_call pg regs m)
    pub on_fork : P (fork_call pg regs m)
    pub on_wait : P (wait_call pg child_runs regs m)
    pub on_exec : P (exec_call pg regs m)
    pub on_pipe : P (pipe_call pg regs m)
    pub on_dup : P (dup_call pg regs m)
    pub on_dup2 : P (dup2_call pg regs m)
    pub on_kill : P (kill_call pg regs m)
    pub on_other : P (resumes regs m)

  pub syscall_dispatch-each :
      (P : Outcome pg → Type 0) (regs : SyscallRegs) (m : Machine pg)
      → OnEachArm P regs m
      → P (syscall_dispatch regs m)
  unfolding syscall_dispatch
  syscall_dispatch-each P regs m arms =
      if-either P (regs.rax == 0) (λ e. arms.on_write)
        (λ e.
          if-either P (regs.rax == 1) (λ e. arms.on_exit)
            (λ e.
              if-either P (regs.rax == 2) (λ e. arms.on_sbrk)
                (λ e.
                  if-either P (regs.rax == 3) (λ e. arms.on_open)
                    (λ e.
                      if-either P (regs.rax == 4) (λ e. arms.on_read)
                        (λ e.
                          if-either P (regs.rax == 5) (λ e. arms.on_fdwrite)
                            (λ e.
                              if-either P (regs.rax == 6) (λ e. arms.on_close)
                                (λ e.
                                  if-either P (regs.rax == 7) (λ e. arms.on_fork)
                                    (λ e.
                                      if-either P (regs.rax == 8) (λ e. arms.on_wait)
                                        (λ e.
                                          if-either P (regs.rax == 9) (λ e. arms.on_exec)
                                            (λ e.
                                              if-either P (regs.rax == 10) (λ e. arms.on_pipe)
                                                (λ e.
                                                  if-either P (regs.rax == 11) (λ e. arms.on_dup)
                                                    (λ e.
                                                      if-either P (regs.rax == 12)
                                                        (λ e. arms.on_dup2)
                                                        (λ e.
                                                          if-either P (regs.rax == 13)
                                                            (λ e. arms.on_kill)
                                                            (λ e. arms.on_other))))))))))))))
