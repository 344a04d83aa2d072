-- ===== src/Syscall/Arms.antt =====
-- kernel/src/usertest.rs: what holds of every system call, from what holds of the steps that the arms of
-- syscall_dispatch() are made of. Those steps are the fields of `StepLaws`; the arms are put together
-- from them once, in the children, for whatever is proved of all calls.
pub mod Files
pub mod Processes
use spikeling_os.Base.{
  ℕ, ◌≡◌, refl, subst, List, ◌++◌, Option, none, some, Bool, if◌then◌else◌, ◌==◌,
}
use spikeling_os.Base.Branch.{if-either}
use spikeling_os.Process.Refs.Calls.{Call, run}
use spikeling_os.Process.Space.{Paging, Space}
use spikeling_os.Process.Machine.{Machine, with_kernel, fork, exec_process, wait_for_child}
use spikeling_os.Syscall.{SyscallRegs, Outcome, resumes, leaves, enters, halts, write_user, answer}
use spikeling_os.Syscall.Processes.{to_kernel}

-- No register but `rax` differs.
abbrev pub OnlyRax : SyscallRegs → SyscallRegs → Type 0
OnlyRax regs regs' = record regs' { rax = regs.rax } ≡ regs

module _ (pg : Paging) (child_runs : ℕ → ℕ → Machine pg → Machine pg) (m : Machine pg) where
  -- `Q` holds of the machine after each step that a call is answered with, and `L` of the one that an
  -- exit leaves.
  pub record StepLaws (Q L : Machine pg → Type 0) : Type 0 where
    pub still : Q m
    pub called : (c : Call) → Q (with_kernel pg (run c m.kernel) m)
    pub stored :
        (c : Call) (ptr : ℕ) (bytes : List ℕ) (s : Space pg)
        → write_user pg ptr 0 bytes m.space ≡ some s
        → Q (record m { kernel = run c m.kernel; space = s })
    pub printed : (bytes : List ℕ) → Q (record m { sent = m.sent ++ bytes })
    pub forked : (resume : ℕ × ℕ) → Q (fork pg m.active resume m).1
    pub waited : (pid : ℕ) → Q (wait_for_child pg child_runs m.active pid m).1
    pub replaced : (image : List ℕ) → Q (exec_process pg m.active image m).1
    pub left : L (if m.active == 0 then m else to_kernel pg m)

  -- What a call with those registers becomes.
  pub record Ends (Q L : Machine pg → Type 0) (regs : SyscallRegs) (o : Outcome pg) : Type 0 where
    pub resumed :
        (regs' : SyscallRegs) (m' : Machine pg) → o ≡ resumes regs' m' → OnlyRax regs regs' × Q m'
    pub exited : (nested : Bool) (m' : Machine pg) → o ≡ leaves nested m' → L m'
    pub entered : (rip rsp : ℕ) (m' : Machine pg) → o ≡ enters rip rsp m' → Q m'

  module _ (Q L : Machine pg → Type 0) (regs : SyscallRegs) where
    pub back :
        (regs' : SyscallRegs) (m' : Machine pg)
        → OnlyRax regs regs'
        → Q m'
        → Ends Q L regs (resumes regs' m')
    back regs' m' only q = record {
      resumed = λ regs'' m'' e.
          let same : m' ≡ m'' = cc in
          let same_regs : regs' ≡ regs'' = cc in
          (subst (λ r. OnlyRax regs r) same_regs only, subst Q same q);
      exited = λ nested m'' e. cc;
      entered = λ rip rsp m'' e. cc;
    }

    pub out : (nested : Bool) (m' : Machine pg) → L m' → Ends Q L regs (leaves nested m')
    out nested m' l = record {
      resumed = λ regs'' m'' e. cc;
      exited = λ n m'' e. let same : m' ≡ m'' = cc in subst L same l;
      entered = λ rip rsp m'' e. cc;
    }

    pub fresh : (rip rsp : ℕ) (m' : Machine pg) → Q m' → Ends Q L regs (enters rip rsp m')
    fresh rip rsp m' q = record {
      resumed = λ regs'' m'' e. cc;
      exited = λ n m'' e. cc;
      entered = λ a b m'' e. let same : m' ≡ m'' = cc in subst Q same q;
    }

    pub stopped : Ends Q L regs halts
    stopped = record {
      resumed = λ regs'' m'' e. cc;
      exited = λ n m'' e. cc;
      entered = λ a b m'' e. cc;
    }

    -- A call that is answered from a result of process.rs.
    pub answered :
        {A : Type 0} (r : Option A) (m' : Machine pg) (v : ℕ) (f : A → ℕ)
        → Q m'
        → Ends Q L regs (elim r [ none ↦ answer pg v regs m' | some a ↦ answer pg (f a) regs m' ])
    answered none m' v f q = back _ m' refl q
    answered (some a) m' v f q = back _ m' refl q

    -- The guard on the active process, before a call.
    pub guarded :
        (v : ℕ) (o : Outcome pg)
        → Q m
        → Ends Q L regs o
        → Ends Q L regs (if m.active == 0 then answer pg v regs m else o)
    guarded v o q ends =
        if-either (Ends Q L regs) (m.active == 0) (λ e. back _ m refl q) (λ e. ends)
