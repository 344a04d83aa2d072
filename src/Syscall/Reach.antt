-- ===== src/Syscall/Reach.antt =====
-- kernel/src/usertest.rs: every system call changes the tables of processes and pipes by the calls of
-- kernel/src/process.rs alone, so that what those keep, every system call keeps.
use spikeling_os.Base.{ℕ, ◌≤◌, ◌≡◌, Option, none, some, length}
use spikeling_os.Pipe.{Pipe, read_pipe}
use spikeling_os.Process.Fds.{pipe_at, put_pipe}
use spikeling_os.Process.Refs.Calls.{Reaches}
use spikeling_os.Process.Space.{Paging}
use spikeling_os.Process.Machine.{Machine}
use spikeling_os.Syscall.{
  SyscallRegs, Outcome, resumes, leaves, enters, halts, write_user, capped, max_fd_io_len,
}
use spikeling_os.Syscall.Dispatch.{syscall_dispatch}

-- The machine after an outcome: none where the kernel halts.
abbrev pub machine_of : {pg : Paging} → Outcome pg → Option (Machine pg)
machine_of (resumes regs m) = some m
machine_of (leaves nested m) = some m
machine_of (enters rip rsp m) = some m
machine_of halts = none

module _ (pg : Paging) (child_runs : ℕ → ℕ → Machine pg → Machine pg)
    (runs : (rip rsp : ℕ) (m : Machine pg) → Reaches m.kernel (child_runs rip rsp m).kernel) where
  abbrev Led : Machine pg → Machine pg → Type 0
  Led m m' = Reaches m.kernel m'.kernel

module _ (pg : Paging) (child_runs : ℕ → ℕ → Machine pg → Machine pg) where
  -- System calls one after the other, each with any registers.
  pub data Runs (m : Machine pg) : Machine pg → Type 0 where
    begin : Runs m m
    then_call :
        {m1 m2 : Machine pg}
        → Runs m m1
        → (regs : SyscallRegs) → machine_of (syscall_dispatch pg child_runs regs m1) ≡ some m2
        → Runs m m2

-- A read of pipe `idx` with those registers: the pipe is there and has a read end open, and the outcome
-- is that of its oldest bytes, at most as many as were asked for, going to the caller's pointer.
pub record ReadsPipe (pg : Paging) (m : Machine pg) (regs : SyscallRegs) (idx : ℕ) (o : Outcome pg)
    : Type 0 where
  pub pipe : Pipe
  pub there : pipe_at m.kernel idx ≡ some pipe
  pub end_open : 1 ≤ pipe.read_open
  pub outcome : o ≡ (
      let got = read_pipe pipe (capped max_fd_io_len regs.rdx) in
      elim (write_user pg regs.rsi 0 got.0 m.space) [
        | none ↦ halts
        | some s ↦
            resumes
              (record regs { rax = length got.0 })
              (record m { kernel = put_pipe m.kernel idx (some got.1); space = s })
      ])
