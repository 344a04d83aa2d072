-- ===== src/Process/Children.antt =====
-- kernel/src/process.rs: what fork(), wait_for_child(), kill() and exec_process() do to the tables of
-- processes and pipes. The child that fork() has built is an argument here; Process.Space builds it.
use spikeling_os.Base.{
  is_none, ℕ, ◌+◌, ◌-◌, ltb, leb, ◌==◌, List, [], ◌∷◌, Option, none, some, Bool, true, false,
  if◌then◌else◌, position, held, set,
}
use spikeling_os.Process.{
  FdEntry, Process, Kernel, max_processes, pid_table_base, find_process, with_process_mut,
}
use spikeling_os.Process.Ends.{retain_entry}

-- `for entry in parent_fds.iter().flatten()`: the counts of the pipe ends that are copied go up.
unfoldable pub retain_all : List (Option FdEntry) → Kernel → Kernel
retain_all [] k = k
retain_all (none ∷ fds) k = retain_all fds k
retain_all (some e ∷ fds) k = retain_all fds (retain_entry e k)

-- What fork() writes into the child that it has built.
abbrev pub adopted : ℕ → ℕ × ℕ → Process → Process → Process
adopted parent_id resume parent child = record child {
  heap_used = parent.heap_used;
  fds = parent.fds;
  parent_pid = some parent_id;
  pending_resume = some resume;
}

unfoldable pub alloc_pid_slot : List (Option Process) → Option ℕ
alloc_pid_slot table = position is_none table

-- fork() from `child.heap_used = …` on. The counts have gone up before a slot is looked for.
unfoldable pub adopt_child : ℕ → ℕ × ℕ → Process → Process → Kernel → Option ℕ × Kernel
adopt_child parent_id resume parent child k =
    let k' = retain_all parent.fds k in
    let kept = adopted parent_id resume parent child in
    elim (alloc_pid_slot k'.process_table) [
      | none ↦ (none, k')
      | some idx ↦ (
        some (pid_table_base + idx),
        record k' { process_table = set k'.process_table idx (some kept) },
      )
    ]

-- fork() on the tables, given the child that is built between its two parts.
unfoldable pub fork_into : ℕ → ℕ × ℕ → Process → Kernel → Option ℕ × Kernel
fork_into id resume child k = elim (find_process id k) [
  | none ↦ (none, k)
  | some parent ↦ adopt_child id resume parent child k
]

abbrev pub is_child_of : ℕ → Option Process → Bool
is_child_of parent_id none = false
is_child_of parent_id (some p) = elim p.parent_pid [ none ↦ false | some q ↦ q == parent_id ]

-- The slot of a live child of that parent: the checks that wait_for_child() and kill() share.
unfoldable pub child_slot : ℕ → ℕ → Kernel → Option ℕ
child_slot parent_id child_pid k =
    let idx = child_pid - pid_table_base in
    if ltb child_pid pid_table_base
    then none
    else if leb max_processes idx
    then none
    else if is_child_of parent_id (held k.process_table idx)
    then some idx
    else none

-- `table[idx] = None`
abbrev pub reap : ℕ → Kernel → Kernel
reap idx k = record k { process_table = set k.process_table idx none }

unfoldable pub kill : ℕ → ℕ → Kernel → Bool × Kernel
kill caller_id target_pid k = elim (child_slot caller_id target_pid k) [
  | none ↦ (false, k)
  | some idx ↦ (true, reap idx k)
]

-- The closure of run_forked_child(): `p.pending_resume.take()`.
abbrev pub take_resume : Process → Option (ℕ × ℕ) × Process
take_resume p = (p.pending_resume, record p { pending_resume = none })

unfoldable pub start_child : ℕ → Kernel → Option (ℕ × ℕ) × Kernel
start_child child_pid k = with_process_mut child_pid take_resume k

-- The closure of exec_process(): the heap is empty again, and the code frame is handed out.
abbrev pub reset_heap : Process → Option ℕ × Process
reset_heap p = (some p.code_frame, record p { heap_used = 0 })

unfoldable pub exec_frame : ℕ → Kernel → Option ℕ × Kernel
exec_frame id k = with_process_mut id reset_heap k
