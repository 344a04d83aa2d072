-- ===== src/Process/Refs/Children.antt =====
-- fork(), wait_for_child(), kill() and exec_process() of kernel/src/process.rs: the counts go up for
-- each pipe end that a child inherits, and a child that goes leaves them at least as high.
use spikeling_os.Base.{
  is_none, ℕ, ◌+◌, ◌≤◌, ◌≡◌, refl, ap, ◌∙◌, List, [], ◌∷◌, Option, none, some, arith, length, set,
  length-set, get_elem?, Option-cases, inl, inr, position, position-some, zero, suc,
}
use spikeling_os.Process.{FdEntry, Process, Kernel, max_open_files, find_process}
use spikeling_os.Process.Ends.{retain_read, retain_write, retain_entry}
use spikeling_os.Process.Children.{
  retain_all, adopted, alloc_pid_slot, adopt_child, child_slot, reap, kill, take_resume,
  start_child, reset_heap, exec_frame,
}
use spikeling_os.Process.Refs.Totals.{
  End, names-le_one, fd_total, procs_total, kernel_total, HasFds, procs_total-set,
}
use spikeling_os.Process.Refs.Places.{kernel_total-put, find_process-HasFds, HasFds-set}
use spikeling_os.Process.Refs.Covers.{Covers, no_extra, IsCovered, Covers-mono}
use spikeling_os.Process.Refs.Entries.{plus, retain_entry-plus}
use spikeling_os.Process.Refs.Steps.{with_process_mut-Covers}

-- Counting changes no process.
retain_read-total :
    (end : End) (idx i : ℕ) (k : Kernel)
    → kernel_total end idx (retain_read i k) ≡ kernel_total end idx k
unfolding retain_read
retain_read-total end idx i k = ground arith

retain_write-total :
    (end : End) (idx i : ℕ) (k : Kernel)
    → kernel_total end idx (retain_write i k) ≡ kernel_total end idx k
unfolding retain_write
retain_write-total end idx i k = ground arith

retain_entry-total :
    (end : End) (idx : ℕ) (e : FdEntry) (k : Kernel)
    → kernel_total end idx (retain_entry e k) ≡ kernel_total end idx k
unfolding retain_entry
retain_entry-total end idx (FdEntry.file f) k = refl
retain_entry-total end idx (FdEntry.pipe_read i) k = retain_read-total end idx i k
retain_entry-total end idx (FdEntry.pipe_write i) k = retain_write-total end idx i k

abbrev with_fds : (End → ℕ → ℕ) → List (Option FdEntry) → End → ℕ → ℕ
with_fds extra fds end idx = extra end idx + fd_total end idx fds

retain_all-Covers :
    (extra : End → ℕ → ℕ) (n : ℕ) (fds : List (Option FdEntry)) (k : Kernel)
    → ((end : End) (idx : ℕ) → fd_total end idx fds ≤ kernel_total end idx k)
    → ((end : End) (idx : ℕ) → extra end idx ≤ n)
    → n + length fds ≤ 4
    → Covers extra k
    → Covers (with_fds extra fds) (retain_all fds k)
unfolding retain_all
retain_all-Covers extra n [] k named small room c =
    Covers-mono extra (with_fds extra []) k (λ end idx. omega arith) c
retain_all-Covers extra n (none ∷ fds) k named small room c =
    Covers-mono (with_fds extra fds) (with_fds extra (none ∷ fds)) (retain_all fds k)
      (λ end idx. omega arith)
      (retain_all-Covers extra n fds k (λ end idx. omega (arith, named end idx)) small (omega arith)
        c)
retain_all-Covers extra n (some e ∷ fds) k named small room c =
    let k' = retain_entry e k in
    Covers-mono (with_fds (plus extra e) fds) (with_fds extra (some e ∷ fds)) (retain_all fds k')
      (λ end idx. omega arith)
      (retain_all-Covers (plus extra e) (n + 1) fds k'
        (λ end idx. omega (arith, named end idx, retain_entry-total end idx e k))
        (λ end idx. omega (arith, small end idx, names-le_one end idx e)) (omega arith)
        (retain_entry-plus extra e k (λ end idx. omega (arith, named end idx))
          (λ end idx. omega (arith, small end idx)) c))

-- A live process names no more than all of them do.
fd_total-le-kernel :
    (end : End) (idx id : ℕ) (k : Kernel) {p : Process}
    → find_process id k ≡ some p
    → fd_total end idx p.fds ≤ kernel_total end idx k
fd_total-le-kernel end idx id k {p} h =
    omega (arith, kernel_total-put end idx id (record p { fds = [] }) k h)

-- A slot of the process table that position() finds is free.
free_slot :
    (table : List (Option Process)) (i : ℕ)
    → position is_none table ≡ some i
    → get_elem? table i ≡ some none
free_slot table i h =
    let (o, at, free) = position-some is_none table i h in
    elim (Option-cases o) [ inl e ↦ at ∙ ap some e | inr (p, e) ↦ absurd (ground arith) ]

-- A child in a free slot adds its own descriptors to the totals.
place-Covers :
    (extra : End → ℕ → ℕ) (i : ℕ) (child : Process) (k : Kernel)
    → get_elem? k.process_table i ≡ some none
    → length child.fds ≡ max_open_files
    → ((end : End) (idx : ℕ) → fd_total end idx child.fds ≤ extra end idx)
    → Covers extra k
    → IsCovered (record k { process_table = set k.process_table i (some child) })
place-Covers extra i child k free n owed c = record {
  shaped = record {
    statics_len = c.shaped.statics_len;
    table_len = length-set k.process_table i (some child) ∙ c.shaped.table_len;
    statics_fds = c.shaped.statics_fds;
    table_fds = HasFds-set k.process_table i child n c.shaped.table_fds;
  };
  covered = λ end idx. omega (
    arith,
    procs_total-set end idx k.process_table i (some child) free,
    owed end idx,
    c.covered end idx,
  );
}

pub adopt_child-IsCovered :
    (parent_id : ℕ) (resume : ℕ × ℕ) (parent child : Process) (k : Kernel)
    → find_process parent_id k ≡ some parent
    → IsCovered k
    → IsCovered (adopt_child parent_id resume parent child k).1
unfolding adopt_child alloc_pid_slot
adopt_child-IsCovered parent_id resume parent child k h c =
    let k' = retain_all parent.fds k in
    let four = find_process-HasFds parent_id k c.shaped h in
    let counted =
      retain_all-Covers no_extra 0 parent.fds k
        (λ end idx. fd_total-le-kernel end idx parent_id k h) (λ end idx. omega arith) (omega arith)
        c in
    elim (Option-cases (alloc_pid_slot k'.process_table)) [
      | inl q ↦
          rw (q, adopt_child)
            (Covers-mono (with_fds no_extra parent.fds) no_extra k' (λ end idx. omega arith)
              counted)
      | inr (i, q) ↦
          rw (q, adopt_child)
            (place-Covers (with_fds no_extra parent.fds) i (adopted parent_id resume parent child)
              k' (free_slot k'.process_table i q) four (λ end idx. omega arith) counted)
    ]

-- A slot that is emptied takes its descriptors away, and leaves the counts.
procs_total-clear :
    (end : End) (idx : ℕ) (os : List (Option Process)) (i : ℕ)
    → procs_total end idx (set os i none) ≤ procs_total end idx os
procs_total-clear end idx [] i = omega arith
procs_total-clear end idx (o ∷ os) zero = omega arith
procs_total-clear end idx (o ∷ os) (suc i) = omega (arith, procs_total-clear end idx os i)

HasFds-clear : (os : List (Option Process)) (i : ℕ) → HasFds os → HasFds (set os i none)
HasFds-clear [] i h = tt
HasFds-clear (none ∷ os) zero h = h
HasFds-clear (some p ∷ os) zero h = h.1
HasFds-clear (none ∷ os) (suc i) h = HasFds-clear os i h
HasFds-clear (some p ∷ os) (suc i) h = (h.0, HasFds-clear os i h.1)

pub reap-IsCovered : (i : ℕ) (k : Kernel) → IsCovered k → IsCovered (reap i k)
reap-IsCovered i k c = record {
  shaped = record {
    statics_len = c.shaped.statics_len;
    table_len = length-set k.process_table i none ∙ c.shaped.table_len;
    statics_fds = c.shaped.statics_fds;
    table_fds = HasFds-clear k.process_table i c.shaped.table_fds;
  };
  covered =
      λ end idx. omega (arith, procs_total-clear end idx k.process_table i, c.covered end idx);
}

pub kill-IsCovered :
    (caller target : ℕ) (k : Kernel) → IsCovered k → IsCovered (kill caller target k).1
unfolding kill
kill-IsCovered caller target k c = elim (Option-cases (child_slot caller target k)) [
  | inl q ↦ rw (q, kill) c
  | inr (i, q) ↦ rw (q, kill) (reap-IsCovered i k c)
]

pub start_child-IsCovered : (pid : ℕ) (k : Kernel) → IsCovered k → IsCovered (start_child pid k).1
unfolding start_child
start_child-IsCovered pid k c =
    with_process_mut-Covers no_extra pid take_resume k (λ p. (refl, λ end idx. omega arith)) c

pub exec_frame-IsCovered : (id : ℕ) (k : Kernel) → IsCovered k → IsCovered (exec_frame id k).1
unfolding exec_frame
exec_frame-IsCovered id k c =
    with_process_mut-Covers no_extra id reset_heap k (λ p. (refl, λ end idx. omega arith)) c
