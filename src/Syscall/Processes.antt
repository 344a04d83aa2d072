-- ===== src/Syscall/Processes.antt =====
-- kernel/src/usertest.rs, syscall_dispatch(): the arms on processes: exit, sbrk, fork, wait, exec and kill (1, 2,
-- 7 to 9 and 13), and terminate_faulted_process_and_resume_kernel() with the page fault handler of
-- kernel/src/interrupts.rs that calls it.
use spikeling_os.Base.{ℕ, ◌+◌, ltb, List, none, some, Bool, ◌&&◌, not, if◌then◌else◌, ◌==◌}
use spikeling_os.Base.Result.{ok, err}
use spikeling_os.Base.Utf8.{is_utf8}
use spikeling_os.Fs.Read.{read_file}
use spikeling_os.Process.{page_size}
use spikeling_os.Process.Children.{kill}
use spikeling_os.Process.Heap.{sbrk}
use spikeling_os.Process.Space.{Paging, user_code_addr, user_stack_addr}
use spikeling_os.Process.Machine.{
  Machine, with_kernel, with_cr3, fork, exec_process, wait_for_child,
}
use spikeling_os.Syscall.{
  SyscallRegs, max_path_len, u64_max, capped, Outcome, leaves, enters, halts, read_user, answer,
  for_process,
}

abbrev pub user_stack_size : ℕ
user_stack_size = page_size

module _ (pg : Paging) where
  abbrev pub restore_kernel_cr3 : Machine pg → Machine pg
  restore_kernel_cr3 m = with_cr3 pg m.kernel_pml4 m

  -- The kernel's own table, and no process active.
  abbrev pub to_kernel : Machine pg → Machine pg
  to_kernel m = record (restore_kernel_cr3 m) { active = 0 }

  unfoldable pub exit_call : Machine pg → Outcome pg
  exit_call m = leaves m.in_child (if m.active == 0 then m else to_kernel m)

  unfoldable pub terminate_faulted_process_and_resume_kernel : Machine pg → Outcome pg
  terminate_faulted_process_and_resume_kernel m = leaves m.in_child (to_kernel m)

  -- `ring3`: the CPU's record of the code that faulted.
  unfoldable pub page_fault_handler : Bool → Machine pg → Outcome pg
  page_fault_handler ring3 m =
      if ring3 && not (m.active == 0) then terminate_faulted_process_and_resume_kernel m else halts

  unfoldable pub sbrk_call : SyscallRegs → Machine pg → Outcome pg
  sbrk_call regs m =
      let (ptr, k') = sbrk m.active regs.rdi m.kernel in
      let m' = with_kernel pg k' m in
      for_process pg 0 regs m
        (elim ptr [ none ↦ answer pg 0 regs m' | some p ↦ answer pg p regs m' ])

  unfoldable pub fork_call : SyscallRegs → Machine pg → Outcome pg
  fork_call regs m =
      let (pid, m') = fork pg m.active (regs.rip, regs.rsp) m in
      for_process pg u64_max regs m
        (elim pid [ none ↦ answer pg u64_max regs m' | some p ↦ answer pg p regs m' ])

  unfoldable pub wait_call :
      (ℕ → ℕ → Machine pg → Machine pg) → SyscallRegs → Machine pg → Outcome pg
  wait_call child_runs regs m =
      let (reaped, m') = wait_for_child pg child_runs m.active regs.rdi m in
      for_process pg u64_max regs m (
        if ltb 255 regs.rdi
        then answer pg u64_max regs m
        else elim reaped [ none ↦ answer pg u64_max regs m' | some p ↦ answer pg p regs m' ])

  -- The new program in place of the old one, which goes on if there is an error.
  unfoldable pub exec_image : List ℕ → SyscallRegs → Machine pg → Outcome pg
  exec_image image regs m =
      let (done, m') = exec_process pg m.active image m in
      elim done [
        | ok u ↦ enters user_code_addr (user_stack_addr + user_stack_size) m'
        | err e ↦ answer pg u64_max regs m'
      ]

  unfoldable pub exec_path : List ℕ → SyscallRegs → Machine pg → Outcome pg
  exec_path path regs m =
      if is_utf8 path
      then elim (read_file path m.kernel.disk) [
        | ok image ↦ exec_image image regs m
        | err e ↦ answer pg u64_max regs m
      ]
      else answer pg u64_max regs m

  unfoldable pub exec_call : SyscallRegs → Machine pg → Outcome pg
  exec_call regs m =
      let len = capped max_path_len regs.rsi in
      for_process pg u64_max regs m (elim (read_user pg regs.rdi 0 len m.space) [
        | none ↦ halts
        | some path ↦ exec_path path regs m
      ])

  unfoldable pub kill_call : SyscallRegs → Machine pg → Outcome pg
  kill_call regs m =
      let (done, k') = kill m.active regs.rdi m.kernel in
      for_process pg 0 regs m (
        if ltb 255 regs.rdi
        then answer pg 0 regs m
        else answer pg (if done then 1 else 0) regs (with_kernel pg k' m))
