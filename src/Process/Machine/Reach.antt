-- ===== src/Process/Machine/Reach.antt =====
-- kernel/src/process.rs: fork(), exec_process() and wait_for_child() change the tables of processes and
-- pipes by the calls of Process.Refs.Calls, and in no other way.
use spikeling_os.Base.{ℕ, ◌≡◌, subst, none, some, List, leb, length}
use spikeling_os.Base.Branch.{if-either, option-either, result-either}
use spikeling_os.Process.{Process, Kernel, find_process}
use spikeling_os.Process.Children.{fork_into, adopt_child, child_slot, start_child, exec_frame}
use spikeling_os.Process.Space.{Paging, max_code_image_bytes, fork_build_child}
use spikeling_os.Process.Refs.Calls.{
  Call, fork_call, start_call, reap_call, exec_call, run, Reaches, here, call,
}
use spikeling_os.Process.Machine.{
  Machine, forked_child, fork, fork_with, exec_process, run_forked_child, wait_for, wait_for_child,
}

pub Reaches-trans : (k k1 k2 : Kernel) → Reaches k k1 → Reaches k1 k2 → Reaches k k2
Reaches-trans k k1 k2 a here = a
Reaches-trans k k1 k2 a (call r c) = call (Reaches-trans k k1 _ a r) c

pub once : (k : Kernel) (c : Call) → Reaches k (run c k)
once k c = call here c

fork_into-adopt_child :
    (id : ℕ) (resume : ℕ × ℕ) (parent child : Process) (k : Kernel)
    → find_process id k ≡ some parent
    → fork_into id resume child k ≡ adopt_child id resume parent child k
unfolding fork_into
fork_into-adopt_child id resume parent child k found = rw (fork_into, found)

module _ (pg : Paging) where
  -- The machine that comes with an answer has tables that calls lead to.
  pub record Leads {A : Type 0} (k : Kernel) (r : A × Machine pg) : Type 0 where
    pub reached : Reaches k r.1.kernel

  still : {A : Type 0} (a : A) (m : Machine pg) → Leads m.kernel (a, m)
  still a m = record { reached = here }

  fork_with-Leads :
      (id : ℕ) (resume : ℕ × ℕ) (parent : Process) (m : Machine pg)
      → find_process id m.kernel ≡ some parent
      → Leads m.kernel (fork_with pg id resume parent m)
  unfolding fork_with run
  fork_with-Leads id resume parent m found =
      let built =
        fork_build_child pg (forked_child pg) parent.code_frame parent.stack_frame
          parent.heap_frames m.space in
      result-either (Leads m.kernel) built.0
        (λ child e. record {
          reached =
              subst (λ r. Reaches m.kernel r.1)
                (fork_into-adopt_child id resume parent child m.kernel found)
                (once m.kernel (fork_call id resume child));
        })
        (λ e q. record { reached = here })

  pub fork-Leads : (id : ℕ) (resume : ℕ × ℕ) (m : Machine pg) → Leads m.kernel (fork pg id resume m)
  unfolding fork
  fork-Leads id resume m =
      if-either (Leads m.kernel) m.in_child (λ e. still none m)
        (λ e.
          option-either (Leads m.kernel) (find_process id m.kernel) (λ n. still none m)
            (λ parent found.
              if-either (Leads m.kernel) m.installed (λ i. fork_with-Leads id resume parent m found)
                (λ i. still none m)))

  pub exec_process-Leads :
      (id : ℕ) (image : List ℕ) (m : Machine pg) → Leads m.kernel (exec_process pg id image m)
  unfolding exec_process run
  exec_process-Leads id image m =
      if-either (Leads m.kernel) (leb (length image) max_code_image_bytes)
        (λ fits.
          option-either (Leads m.kernel) (exec_frame id m.kernel).0
            (λ n. record { reached = once m.kernel (exec_call id) })
            (λ f e. record { reached = once m.kernel (exec_call id) }))
        (λ large. still _ m)

  module _ (child_runs : ℕ → ℕ → Machine pg → Machine pg)
      (runs : (rip rsp : ℕ) (m : Machine pg) → Reaches m.kernel (child_runs rip rsp m).kernel) where
    run_forked_child-Leads :
        (pid : ℕ) (m : Machine pg) → Leads m.kernel (run_forked_child pg child_runs pid m)
    unfolding run_forked_child run
    run_forked_child-Leads pid m =
        option-either (Leads m.kernel) (find_process pid m.kernel) (λ n. still _ m)
          (λ child found.
            option-either (Leads m.kernel) (start_child pid m.kernel).0
              (λ n. record { reached = once m.kernel (start_call pid) })
              (λ (rip, rsp) e. record {
                reached =
                    Reaches-trans m.kernel (run (start_call pid) m.kernel) _
                      (once m.kernel (start_call pid)) (runs rip rsp _);
              }))

    wait_for-Leads :
        (id pml4 pid idx : ℕ) (m : Machine pg)
        → Leads m.kernel (wait_for pg child_runs id pml4 pid idx m)
    unfolding wait_for run
    wait_for-Leads id pml4 pid idx m =
        let ran = (run_forked_child-Leads pid m).reached in
        if-either (Leads m.kernel) (run_forked_child pg child_runs pid m).0
          (λ t. record { reached = call ran (reap_call idx) }) (λ f. record { reached = ran })

    pub wait_for_child-Leads :
        (id pid : ℕ) (m : Machine pg) → Leads m.kernel (wait_for_child pg child_runs id pid m)
    unfolding wait_for_child
    wait_for_child-Leads id pid m =
        if-either (Leads m.kernel) m.in_child (λ e. still none m)
          (λ e.
            option-either (Leads m.kernel) (child_slot id pid m.kernel) (λ n. still none m)
              (λ idx s.
                option-either (Leads m.kernel) (find_process id m.kernel) (λ n. still none m)
                  (λ parent f. wait_for-Leads id parent.pml4_frame pid idx m)))
