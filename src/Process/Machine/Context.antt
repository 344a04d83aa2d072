-- ===== src/Process/Machine/Context.antt =====
-- kernel/src/process.rs: what fork(), exec_process() and wait_for_child() leave to the process that made
-- the call: its page table, its being active, and the stack that its own call is on.
use spikeling_os.Base.{ℕ, ◌≡◌, refl, sym, ◌∙◌, List, Option, some, Bool, false, leb, length}
use spikeling_os.Base.Branch.{if-either, option-either, result-either}
use spikeling_os.Base.Result.{Result}
use spikeling_os.Process.{Process, find_process}
use spikeling_os.Process.Children.{child_slot, start_child, exec_frame}
use spikeling_os.Process.Space.{Paging, max_code_image_bytes, fork_build_child}
use spikeling_os.Process.Space.Table.{fork_build_child-cr3}
use spikeling_os.Process.Machine.{
  Machine, ExecError, forked_child, fork, fork_with, exec_process, run_forked_child, wait_for,
  wait_for_child,
}

module _ (pg : Paging) where
  pub record SameContext (m m' : Machine pg) : Type 0 where
    pub table : m'.space.cr3 ≡ m.space.cr3
    pub active : m'.active ≡ m.active
    pub in_child : m'.in_child ≡ m.in_child
    pub stack : m'.syscall_stack ≡ m.syscall_stack

  -- The process that is active runs under its own page table.
  pub record RunsOnOwnTable (m : Machine pg) : Type 0 where
    pub own : (p : Process) → find_process m.active m.kernel ≡ some p → p.pml4_frame ≡ m.space.cr3

  abbrev pub Unmoved : {A : Type 0} → Machine pg → A × Machine pg → Type 0
  Unmoved m (a, m') = SameContext m m'

  pub unmoved : (m : Machine pg) → SameContext m m
  unmoved m = record { table = refl; active = refl; in_child = refl; stack = refl }

  fork_with-SameContext :
      (id : ℕ) (resume : ℕ × ℕ) (parent : Process) (m : Machine pg)
      → SameContext m (fork_with pg id resume parent m).1
  unfolding fork_with
  fork_with-SameContext id resume parent m =
      let built =
        fork_build_child pg (forked_child pg) parent.code_frame parent.stack_frame
          parent.heap_frames m.space in
      let kept =
        fork_build_child-cr3 pg (forked_child pg) parent.code_frame parent.stack_frame
          parent.heap_frames m.space in
      result-either (λ (r : Option ℕ × Machine pg). SameContext m r.1) built.0
        (λ c e. record { table = kept; active = refl; in_child = refl; stack = refl })
        (λ e q. record { table = kept; active = refl; in_child = refl; stack = refl })

  pub fork-SameContext :
      (id : ℕ) (resume : ℕ × ℕ) (m : Machine pg) → SameContext m (fork pg id resume m).1
  unfolding fork
  fork-SameContext id resume m =
      let P : Option ℕ × Machine pg → Type 0 = λ r. SameContext m r.1 in
      if-either P m.in_child (λ e. unmoved m)
        (λ e.
          option-either P (find_process id m.kernel) (λ n. unmoved m)
            (λ parent found.
              if-either P m.installed (λ i. fork_with-SameContext id resume parent m)
                (λ i. unmoved m)))

  pub exec_process-SameContext :
      (id : ℕ) (image : List ℕ) (m : Machine pg) → SameContext m (exec_process pg id image m).1
  unfolding exec_process
  exec_process-SameContext id image m =
      let P : Result ExecError (Unit {0}) × Machine pg → Type 0 = λ r. SameContext m r.1 in
      if-either P (leb (length image) max_code_image_bytes)
        (λ fits.
          option-either P (exec_frame id m.kernel).0
            (λ n. record { table = refl; active = refl; in_child = refl; stack = refl })
            (λ f e. record { table = refl; active = refl; in_child = refl; stack = refl }))
        (λ large. unmoved m)

  module _ (child_runs : ℕ → ℕ → Machine pg → Machine pg) where
    -- The child is out of the way again, whatever it did.
    run_forked_child-out :
        (pid : ℕ) (m : Machine pg)
        → m.in_child ≡ false
        → ((run_forked_child pg child_runs pid m).1.in_child ≡ false)
          × ((run_forked_child pg child_runs pid m).1.syscall_stack ≡ m.syscall_stack)
    unfolding run_forked_child
    run_forked_child-out pid m free =
        let P : Bool × Machine pg → Type 0 =
          λ r. (r.1.in_child ≡ false) × (r.1.syscall_stack ≡ m.syscall_stack) in
        option-either P (find_process pid m.kernel) (λ n. (free, refl))
          (λ child found.
            option-either P (start_child pid m.kernel).0 (λ n. (free, refl))
              (λ (rip, rsp) e. (refl, refl)))

    wait_for-SameContext :
        (pml4 pid idx : ℕ) (m : Machine pg)
        → m.in_child ≡ false
        → pml4 ≡ m.space.cr3
        → SameContext m (wait_for pg child_runs m.active pml4 pid idx m).1
    unfolding wait_for
    wait_for-SameContext pml4 pid idx m free own =
        let (f, s) = run_forked_child-out pid m free in
        if-either (λ (r : Option ℕ × Machine pg). SameContext m r.1)
          (run_forked_child pg child_runs pid m).0
          (λ t. record { table = own; active = refl; in_child = f ∙ sym free; stack = s })
          (λ t. record { table = own; active = refl; in_child = f ∙ sym free; stack = s })

    pub wait_for_child-SameContext :
        (pid : ℕ) (m : Machine pg)
        → RunsOnOwnTable m
        → SameContext m (wait_for_child pg child_runs m.active pid m).1
    unfolding wait_for_child
    wait_for_child-SameContext pid m own =
        let P : Option ℕ × Machine pg → Type 0 = λ r. SameContext m r.1 in
        if-either P m.in_child (λ e. unmoved m)
          (λ free.
            option-either P (child_slot m.active pid m.kernel) (λ n. unmoved m)
              (λ idx s.
                option-either P (find_process m.active m.kernel) (λ n. unmoved m)
                  (λ parent f.
                    wait_for-SameContext parent.pml4_frame pid idx m free (own.own parent f))))
