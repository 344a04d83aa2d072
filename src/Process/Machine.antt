-- ===== src/Process/Machine.antt =====
-- kernel/src/process.rs: fork(), wait_for_child() and exec_process() over the whole machine: the tables
-- of `Kernel`, the physical memory, the active process and the flag IN_CHILD_RESUME. What a child does
-- in ring 3, from where it resumes until its own exit, is a parameter.
pub mod Reach
pub mod Context
use spikeling_os.Base.{
  ℕ, ◌<◌, List, [], ◌∷◌, Option, none, some, Bool, true, false, leb, if◌then◌else◌, length,
}
use spikeling_os.Base.Result.{Result, ok, err}
use spikeling_os.Process.{Process, Kernel, find_process}
use spikeling_os.Process.Children.{adopt_child, child_slot, reap, start_child, exec_frame}
use spikeling_os.Process.Space.{
  Paging, Space, SpaceError, max_code_image_bytes, code_page, write_page, fork_build_child,
}

pub data ExecError : Type 0 where
  program_too_large no_such_process : ExecError

-- The stack of TSS.privilege_stack_table[0], where a call from ring 3 saves what it interrupts.
pub data SyscallStack : Type 0 where
  main_stack child_excursion_stack : SyscallStack

module _ (pg : Paging) where
  -- `installed`: FRAME_ALLOCATOR is `Some`. `sent`: the bytes of user programs on the serial port.
  pub record Machine : Type 0 where
    pub kernel : Kernel
    pub space : Space pg
    pub installed : Bool
    pub active : ℕ
    pub in_child : Bool
    pub kernel_pml4 : ℕ
    pub syscall_stack : SyscallStack
    pub sent : List ℕ

  abbrev pub with_kernel : Kernel → Machine → Machine
  with_kernel k m = record m { kernel = k }

  abbrev pub with_cr3 : ℕ → Machine → Machine
  with_cr3 frame m = record m { space = record m.space { cr3 = frame } }

  -- "forked-child"
  abbrev pub forked_child : List ℕ
  forked_child = 102 ∷ 111 ∷ 114 ∷ 107 ∷ 101 ∷ 100 ∷ 45 ∷ 99 ∷ 104 ∷ 105 ∷ 108 ∷ 100 ∷ []

  -- fork() from the building of the child on.
  unfoldable pub fork_with : ℕ → ℕ × ℕ → Process → Machine → Option ℕ × Machine
  fork_with parent_id resume parent m =
      let (built, s') =
        fork_build_child pg forked_child parent.code_frame parent.stack_frame parent.heap_frames
          m.space in
      elim built [
        | err e ↦ (none, record m { space = s' })
        | ok child ↦
            let (pid, k') = adopt_child parent_id resume parent child m.kernel in
            (pid, record m { space = s'; kernel = k' })
      ]

  unfoldable pub fork : ℕ → ℕ × ℕ → Machine → Option ℕ × Machine
  fork parent_id resume m =
      if m.in_child then (none, m) else elim (find_process parent_id m.kernel) [
        | none ↦ (none, m)
        | some parent ↦ if m.installed then fork_with parent_id resume parent m else (none, m)
      ]

  unfoldable pub exec_process : ℕ → List ℕ → Machine → Result ExecError (Unit {0}) × Machine
  exec_process id image m =
      let (frame, k') = exec_frame id m.kernel in
      if leb (length image) max_code_image_bytes
      then elim frame [
        | none ↦ (err no_such_process, with_kernel k' m)
        | some f ↦
            (ok tt, record m { kernel = k'; space = write_page pg f (code_page pg image) m.space })
      ]
      else (err program_too_large, m)

  module _ (child_runs : ℕ → ℕ → Machine → Machine) where
    -- enter_ring3_as_forked_child()
    abbrev pub enter_child : ℕ × ℕ → Machine → Machine
    enter_child (rip, rsp) m = record (child_runs rip rsp (record m { in_child = true })) {
      in_child = false;
    }

    -- set_syscall_stack_top() around it: the calls of the child leave the parent's stack alone.
    abbrev pub enter_on_own_stack : ℕ × ℕ → Machine → Machine
    enter_on_own_stack at m =
        let inside = enter_child at (record m { syscall_stack = child_excursion_stack }) in
        record inside { syscall_stack = m.syscall_stack }

    -- run_forked_child(): false is an error. The child's table is in use while it runs.
    unfoldable pub run_forked_child : ℕ → Machine → Bool × Machine
    run_forked_child child_pid m = elim (find_process child_pid m.kernel) [
      | none ↦ (false, m)
      | some child ↦
          let (resume, k') = start_child child_pid m.kernel in
          let m' = with_kernel k' m in
          elim resume [
            | none ↦ (false, m')
            | some at ↦ (
              true,
              enter_on_own_stack at (record (with_cr3 child.pml4_frame m') { active = child_pid }),
            )
          ]
    ]

    -- wait_for_child() once its checks have passed: the parent's own context comes back either way.
    unfoldable pub wait_for : ℕ → ℕ → ℕ → ℕ → Machine → Option ℕ × Machine
    wait_for parent_id parent_pml4 child_pid idx m =
        let (ran, m1) = run_forked_child child_pid m in
        let m2 : Machine = record (with_cr3 parent_pml4 m1) { active = parent_id } in
        if ran then (some child_pid, with_kernel (reap idx m2.kernel) m2) else (none, m2)

    unfoldable pub wait_for_child : ℕ → ℕ → Machine → Option ℕ × Machine
    wait_for_child parent_id child_pid m =
        if m.in_child then (none, m) else elim (child_slot parent_id child_pid m.kernel) [
          | none ↦ (none, m)
          | some idx ↦ elim (find_process parent_id m.kernel) [
            | none ↦ (none, m)
            | some parent ↦ wait_for parent_id parent.pml4_frame child_pid idx m
          ]
        ]
