-- ===== src/Syscall/Arms/Processes.antt =====
-- kernel/src/usertest.rs, syscall_dispatch(): what holds of the arms on processes, and of the match.
use spikeling_os.Base.{ℕ, refl, List, Option, none, some, ltb}
use spikeling_os.Base.Branch.{if-either, option-either, result-either}
use spikeling_os.Base.Utf8.{is_utf8}
use spikeling_os.Fs.Read.{read_file}
use spikeling_os.Process.Heap.{sbrk}
use spikeling_os.Process.Refs.Calls
use spikeling_os.Process.Space.{Paging}
use spikeling_os.Process.Machine.{Machine, fork, exec_process, wait_for_child}
use spikeling_os.Syscall.{
  SyscallRegs, max_path_len, capped, Outcome, halts, read_user, answer, for_process,
}
use spikeling_os.Syscall.Processes.{
  exit_call, sbrk_call, fork_call, wait_call, exec_image, exec_path, exec_call, kill_call,
}
use spikeling_os.Syscall.Dispatch.{syscall_dispatch, OnEachArm, syscall_dispatch-each}
use spikeling_os.Syscall.Arms.Files.{
  write-Ends, open-Ends, read-Ends, fdwrite-Ends, close-Ends, pipe-Ends, dup-Ends, dup2-Ends,
}
use spikeling_os.Syscall.Arms.{StepLaws, Ends, back, out, fresh, stopped, answered, guarded}

module _ (pg : Paging) (child_runs : ℕ → ℕ → Machine pg → Machine pg) (m : Machine pg)
    (Q L : Machine pg → Type 0) (laws : StepLaws pg child_runs m Q L) (regs : SyscallRegs) where
  abbrev Here : Outcome pg → Type 0
  Here = Ends pg child_runs m Q L regs

  return : (v : ℕ) (m' : Machine pg) → Q m' → Here (answer pg v regs m')
  return v m' q = back pg child_runs m Q L regs _ m' refl q

  halt : Here halts
  halt = stopped pg child_runs m Q L regs

  guard : (v : ℕ) (o : Outcome pg) → Here o → Here (for_process pg v regs m o)
  guard v o h = guarded pg child_runs m Q L regs v o laws.still h

  answer_from :
      {A : Type 0} (r : Option A) (m' : Machine pg) (v : ℕ) (f : A → ℕ)
      → Q m'
      → Here (elim r [ none ↦ answer pg v regs m' | some a ↦ answer pg (f a) regs m' ])
  answer_from r m' v f q = answered pg child_runs m Q L regs r m' v f q

  sbrk-Ends : Here (sbrk_call pg regs m)
  unfolding sbrk_call Calls.run
  sbrk-Ends = guard _ _ (
      answer_from (sbrk m.active regs.rdi m.kernel).0 _ _ (λ p. p)
        (laws.called (Calls.sbrk_call m.active regs.rdi)))

  kill-Ends : Here (kill_call pg regs m)
  unfolding kill_call Calls.run
  kill-Ends = guard _ _ (
      if-either Here (ltb 255 regs.rdi) (λ t. return _ _ laws.still)
        (λ f. return _ _ (laws.called (Calls.kill_call m.active regs.rdi))))

  exit-Ends : Here (exit_call pg m)
  unfolding exit_call
  exit-Ends = out pg child_runs m Q L regs m.in_child _ laws.left

  fork-Ends : Here (fork_call pg regs m)
  unfolding fork_call
  fork-Ends = guard _ _ (
      answer_from (fork pg m.active (regs.rip, regs.rsp) m).0 _ _ (λ p. p)
        (laws.forked (regs.rip, regs.rsp)))

  exec_image-Ends : (image : List ℕ) → Here (exec_image pg image regs m)
  unfolding exec_image
  exec_image-Ends image =
      result-either Here (exec_process pg m.active image m).0
        (λ u e. fresh pg child_runs m Q L regs _ _ _ (laws.replaced image))
        (λ e q. return _ _ (laws.replaced image))

  exec-Ends : Here (exec_call pg regs m)
  unfolding exec_call exec_path
  exec-Ends = guard _ _ (
      option-either Here (read_user pg regs.rdi 0 (capped max_path_len regs.rsi) m.space)
        (λ n. halt)
        (λ path e.
          if-either Here (is_utf8 path)
            (λ t.
              result-either Here (read_file path m.kernel.disk) (λ image q. exec_image-Ends image)
                (λ q r. return _ _ laws.still))
            (λ f. return _ _ laws.still)))

  wait-Ends : Here (wait_call pg child_runs regs m)
  unfolding wait_call
  wait-Ends = guard _ _ (
      if-either Here (ltb 255 regs.rdi) (λ t. return _ _ laws.still)
        (λ f.
          answer_from (wait_for_child pg child_runs m.active regs.rdi m).0 _ _ (λ p. p)
            (laws.waited regs.rdi)))

  each_arm-Ends : OnEachArm pg child_runs Here regs m
  each_arm-Ends = record {
    on_write = write-Ends pg child_runs m Q L laws regs;
    on_exit = exit-Ends;
    on_sbrk = sbrk-Ends;
    on_open = open-Ends pg child_runs m Q L laws regs;
    on_read = read-Ends pg child_runs m Q L laws regs;
    on_fdwrite = fdwrite-Ends pg child_runs m Q L laws regs;
    on_close = close-Ends pg child_runs m Q L laws regs;
    on_fork = fork-Ends;
    on_wait = wait-Ends;
    on_exec = exec-Ends;
    on_pipe = pipe-Ends pg child_runs m Q L laws regs;
    on_dup = dup-Ends pg child_runs m Q L laws regs;
    on_dup2 = dup2-Ends pg child_runs m Q L laws regs;
    on_kill = kill-Ends;
    on_other = back pg child_runs m Q L regs regs m refl laws.still;
  }

  pub syscall_dispatch-Ends : Here (syscall_dispatch pg child_runs regs m)
  syscall_dispatch-Ends = syscall_dispatch-each pg child_runs Here regs m each_arm-Ends
