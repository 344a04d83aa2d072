-- ===== src/Syscall/Files.antt =====
-- kernel/src/usertest.rs, syscall_dispatch(): the arms on descriptors: open, read, fdwrite, close, pipe, dup
-- and dup2 (3 to 6 and 10 to 12), and write (0), which goes to the serial port.
use spikeling_os.Base.{ℕ, List, ◌++◌, none, some, if◌then◌else◌, ◌==◌, length, to_le_bytes}
use spikeling_os.Base.Utf8.{is_utf8}
use spikeling_os.Process.Fds.{open_file, read_fd, write_fd}
use spikeling_os.Process.Ends.{pipe_create, close_fd, dup_fd, dup2_fd}
use spikeling_os.Process.Heap.{heap_start}
use spikeling_os.Process.Space.{Paging}
use spikeling_os.Process.Machine.{Machine, with_kernel}
use spikeling_os.Syscall.{
  SyscallRegs, max_write_len, max_path_len, max_fd_io_len, u64_max, capped, Outcome, resumes, halts,
  read_byte, read_user, write_user, answer, for_process,
}

module _ (pg : Paging) where
  -- The bytes go out first; then a process's heap is looked at, for the log.
  unfoldable pub write_out : SyscallRegs → Machine pg → Outcome pg
  write_out regs m = elim (read_user pg regs.rdi 0 (capped max_write_len regs.rsi) m.space) [
    | none ↦ halts
    | some bytes ↦
        let m' : Machine pg = record m { sent = m.sent ++ bytes } in
        if m.active == 0
        then resumes regs m'
        else elim (read_byte pg heap_start m.space) [ none ↦ halts | some marker ↦ resumes regs m' ]
  ]

  unfoldable pub open_path : List ℕ → SyscallRegs → Machine pg → Outcome pg
  open_path path regs m =
      let (fd, k') = open_file m.active path m.kernel in
      let m' = with_kernel pg k' m in
      if is_utf8 path
      then elim fd [ none ↦ answer pg u64_max regs m' | some n ↦ answer pg n regs m' ]
      else answer pg u64_max regs m

  -- The path is read before it is asked whether a process is active.
  unfoldable pub open_call : SyscallRegs → Machine pg → Outcome pg
  open_call regs m = elim (read_user pg regs.rdi 0 (capped max_path_len regs.rsi) m.space) [
    | none ↦ halts
    | some path ↦ for_process pg u64_max regs m (open_path path regs m)
  ]

  -- The bytes are out of the descriptor before they go to the caller.
  unfoldable pub deliver : List ℕ → SyscallRegs → Machine pg → Outcome pg
  deliver bytes regs m = elim (write_user pg regs.rsi 0 bytes m.space) [
    | none ↦ halts
    | some s ↦ answer pg (length bytes) regs (record m { space = s })
  ]

  unfoldable pub read_call : SyscallRegs → Machine pg → Outcome pg
  read_call regs m =
      let (got, k') = read_fd m.active regs.rdi (capped max_fd_io_len regs.rdx) m.kernel in
      let m' = with_kernel pg k' m in
      for_process pg u64_max regs m
        (elim got [ none ↦ answer pg u64_max regs m' | some bytes ↦ deliver bytes regs m' ])

  unfoldable pub write_bytes : List ℕ → SyscallRegs → Machine pg → Outcome pg
  write_bytes bytes regs m =
      let (accepted, k') = write_fd m.active regs.rdi bytes m.kernel in
      let m' = with_kernel pg k' m in
      elim accepted [ none ↦ answer pg u64_max regs m' | some n ↦ answer pg n regs m' ]

  unfoldable pub fdwrite_call : SyscallRegs → Machine pg → Outcome pg
  fdwrite_call regs m =
      let len = capped max_fd_io_len regs.rdx in
      for_process pg u64_max regs m (elim (read_user pg regs.rsi 0 len m.space) [
        | none ↦ halts
        | some bytes ↦ write_bytes bytes regs m
      ])

  -- 0: closed; 2: closed, and a file's bytes not saved; 1: not open.
  unfoldable pub close_call : SyscallRegs → Machine pg → Outcome pg
  close_call regs m =
      let (done, k') = close_fd m.active regs.rdi m.kernel in
      let m' = with_kernel pg k' m in
      for_process pg u64_max regs m (elim done [
        | none ↦ answer pg 1 regs m'
        | some saved ↦ answer pg (if saved then 0 else 2) regs m'
      ])

  -- The two descriptors go to two `u64`s at the caller's pointer.
  unfoldable pub pipe_call : SyscallRegs → Machine pg → Outcome pg
  pipe_call regs m =
      let (fds, k') = pipe_create m.active m.kernel in
      let m' = with_kernel pg k' m in
      for_process pg u64_max regs m (elim fds [
        | none ↦ answer pg u64_max regs m'
        | some (r, w) ↦
            elim (write_user pg regs.rdi 0 (to_le_bytes 8 r ++ to_le_bytes 8 w) m.space) [
              | none ↦ halts
              | some s ↦ answer pg 0 regs (record m' { space = s })
            ]
      ])

  unfoldable pub dup_call : SyscallRegs → Machine pg → Outcome pg
  dup_call regs m =
      let (fd, k') = dup_fd m.active regs.rdi m.kernel in
      let m' = with_kernel pg k' m in
      for_process pg u64_max regs m
        (elim fd [ none ↦ answer pg u64_max regs m' | some n ↦ answer pg n regs m' ])

  unfoldable pub dup2_call : SyscallRegs → Machine pg → Outcome pg
  dup2_call regs m =
      let (done, k') = dup2_fd m.active regs.rdi regs.rsi m.kernel in
      let m' = with_kernel pg k' m in
      for_process pg u64_max regs m (elim done [
        | none ↦ answer pg u64_max regs m'
        | some placed ↦ answer pg (if placed then regs.rsi else u64_max) regs m'
      ])
