-- ===== src/Syscall/Frame.antt =====
-- kernel/src/usertest.rs: what a system call leaves to its caller, and what an exit or a fault leaves to
-- the kernel.
use spikeling_os.Base.{
  ℕ, zero, ◌+◌, ◌≡◌, refl, ◌∙◌, List, [], ◌∷◌, some, Bool, true, false, arith, Option-cases, inl,
  inr, ◌≢◌,
}
use spikeling_os.Process.Space.{Paging, Space}
use spikeling_os.Process.Machine.{Machine}
use spikeling_os.Process.Machine.Context.{
  SameContext, RunsOnOwnTable, unmoved, fork-SameContext, exec_process-SameContext,
  wait_for_child-SameContext,
}
use spikeling_os.Syscall.{SyscallRegs, resumes, leaves, halts, write_byte, write_user, wrapping_add}
use spikeling_os.Syscall.Processes.{
  to_kernel, exit_call, terminate_faulted_process_and_resume_kernel, page_fault_handler,
}
use spikeling_os.Syscall.Dispatch.{syscall_dispatch}
use spikeling_os.Syscall.Arms.{OnlyRax, StepLaws}
use spikeling_os.Syscall.Arms.Processes.{syscall_dispatch-Ends}

module _ (pg : Paging) where
  write_byte-cr3 : (va b : ℕ) (s s' : Space pg) → write_byte pg va b s ≡ some s' → s'.cr3 ≡ s.cr3
  unfolding write_byte
  write_byte-cr3 va b s s' e = ground arith

  write_user-cr3 :
      (ptr i : ℕ) (bytes : List ℕ) (s s' : Space pg)
      → write_user pg ptr i bytes s ≡ some s'
      → s'.cr3 ≡ s.cr3
  unfolding write_user
  write_user-cr3 ptr i [] s s' e = ground arith
  write_user-cr3 ptr i (b ∷ bs) s s' e =
      elim (Option-cases (write_byte pg (wrapping_add ptr i) b s)) [
        | inl n ↦ absurd (ground arith)
        | inr (s1, w) ↦
            write_user-cr3 ptr (i + 1) bs s1 s' (ground arith)
            ∙ write_byte-cr3 (wrapping_add ptr i) b s s1 w
      ]

  -- What an exit leaves: with no process active, all as it was; else the kernel's table, and none active.
  record ExitsTo (m m' : Machine pg) : Type 0 where
    idle : m.active ≡ zero → m' ≡ m
    kernel : m.active ≢ zero → m' ≡ to_kernel pg m

  module _ (child_runs : ℕ → ℕ → Machine pg → Machine pg) where
    SameContext-StepLaws :
        (m : Machine pg)
        → RunsOnOwnTable pg m
        → StepLaws pg child_runs m (SameContext pg m) (ExitsTo m)
    SameContext-StepLaws m own = record {
      still = unmoved pg m;
      called = λ c. record { table = refl; active = refl; in_child = refl; stack = refl };
      stored = λ c ptr bytes s e. record {
        table = write_user-cr3 ptr 0 bytes m.space s e;
        active = refl;
        in_child = refl;
        stack = refl;
      };
      printed = λ bytes. record { table = refl; active = refl; in_child = refl; stack = refl };
      forked = λ resume. fork-SameContext pg m.active resume m;
      waited = λ pid. wait_for_child-SameContext pg child_runs pid m own;
      replaced = λ image. exec_process-SameContext pg m.active image m;
      left = record { idle = λ z. ground arith; kernel = λ nz. ground arith };
    }

    -- A system call that goes back to its caller changes no register of the caller but `rax`; the
    -- process that made it is active again, under its own page table, with the flag IN_CHILD_RESUME and
    -- the stack for system calls as they were, whatever a child that it waited for has done. The
    -- condition is that the active process, if there is one, runs under its own table.
    pub syscall_dispatch-SameContext :
        (regs regs' : SyscallRegs) (m m' : Machine pg)
        → RunsOnOwnTable pg m
        → syscall_dispatch pg child_runs regs m ≡ resumes regs' m'
        → OnlyRax regs regs' × SameContext pg m m'
    syscall_dispatch-SameContext regs regs' m m' own =
        (syscall_dispatch-Ends pg child_runs m (SameContext pg m) (ExitsTo m)
            (SameContext-StepLaws m own) regs).resumed
          regs' m'

    -- A page fault of ring 3 while a process is active ends that process exactly as its own exit call
    -- would: the same outcome, in the kernel's page table with no process active. A fault of the kernel
    -- halts whether or not a process is active, and so does any fault with no process active.
    pub page_fault_handler-exit :
        (regs : SyscallRegs) (m : Machine pg) (ring3 : Bool)
        → m.active ≢ zero
        → (page_fault_handler pg true m
            ≡ syscall_dispatch pg child_runs (record regs { rax = 1 }) m)
          × (page_fault_handler pg true m ≡ leaves m.in_child (to_kernel pg m))
          × (page_fault_handler pg false m ≡ halts)
          × (page_fault_handler pg ring3 (record m { active = 0 }) ≡ halts)
    unfolding page_fault_handler terminate_faulted_process_and_resume_kernel syscall_dispatch
        exit_call
    page_fault_handler-exit regs m ring3 nz =
        (ground arith, ground arith, ground arith, ground arith)
