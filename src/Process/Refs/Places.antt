-- ===== src/Process/Refs/Places.antt =====
-- Putting a process back, by its id, into the statics or the process table of
-- kernel/src/process.rs: what it does to the totals and to the shape of the tables.
use spikeling_os.Base.{
  held, ℕ, zero, suc, ◌+◌, ◌≤◌, ◌≡◌, refl, ◌∙◌, List, [], ◌∷◌, Option, none, some, arith, length,
  set, length-set, Option-cases, inl, inr,
}
use spikeling_os.Process.{
  FdEntry, Process, Kernel, max_open_files, locate, Place, static_slot, table_slot, at_place,
  put_place, find_process, put_process,
}
use spikeling_os.Process.Fds.{lookup_fd}
use spikeling_os.Process.Refs.Totals.{
  End, names, fd_total, kernel_total, HasFds, IsShaped, procs_total-set, slot_total-le,
  get_elem?-held,
}

-- The place of a live process.
pub find_process-place :
    (id : ℕ) (k : Kernel) {p : Process}
    → find_process id k ≡ some p
    → (place : Place) × (locate id ≡ some place) × (at_place place k ≡ some p)
unfolding find_process
find_process-place id k h = elim (Option-cases (locate id)) [
  | inl e ↦ absurd (ground arith)
  | inr (place, e) ↦ (place, e, ground arith)
]

pub put_process-place :
    (id : ℕ) (p' : Process) (k : Kernel) (place : Place)
    → locate id ≡ some place
    → put_process id p' k ≡ put_place place p' k
unfolding put_process
put_process-place id p' k place e = ground arith

place_total-put :
    (end : End) (idx : ℕ) (place : Place) (p' : Process) (k : Kernel) {p : Process}
    → at_place place k ≡ some p
    → kernel_total end idx (put_place place p' k) + fd_total end idx p.fds
      ≡ kernel_total end idx k + fd_total end idx p'.fds
unfolding at_place put_place
place_total-put end idx (static_slot i) p' k h =
    omega (arith, procs_total-set end idx k.statics i (some p') (get_elem?-held k.statics i h))
place_total-put end idx (table_slot i) p' k h = omega (
  arith,
  procs_total-set end idx k.process_table i (some p') (get_elem?-held k.process_table i h),
)

pub kernel_total-put :
    (end : End) (idx id : ℕ) (p' : Process) (k : Kernel) {p : Process}
    → find_process id k ≡ some p
    → kernel_total end idx (put_process id p' k) + fd_total end idx p.fds
      ≡ kernel_total end idx k + fd_total end idx p'.fds
kernel_total-put end idx id p' k h =
    let (place, e, at) = find_process-place id k h in
    rw (put_process-place id p' k place e) (place_total-put end idx place p' k at)

place-pipe_table :
    (place : Place) (p' : Process) (k : Kernel) → (put_place place p' k).pipe_table ≡ k.pipe_table
unfolding put_place
place-pipe_table (static_slot i) p' k = refl
place-pipe_table (table_slot i) p' k = refl

pub put_process-pipe_table :
    (id : ℕ) (p' : Process) (k : Kernel) → (put_process id p' k).pipe_table ≡ k.pipe_table
unfolding put_process
put_process-pipe_table id p' k = elim (Option-cases (locate id)) [
  | inl e ↦ rw (e, put_process) refl
  | inr (place, e) ↦ rw (e, put_process) (place-pipe_table place p' k)
]

-- A process that is put back with its four descriptors keeps the shape.
pub HasFds-set :
    (os : List (Option Process)) (i : ℕ) (p' : Process)
    → length p'.fds ≡ max_open_files
    → HasFds os
    → HasFds (set os i (some p'))
HasFds-set [] i p' n h = tt
HasFds-set (none ∷ os) zero p' n h = (n, h)
HasFds-set (some p ∷ os) zero p' n h = (n, h.1)
HasFds-set (none ∷ os) (suc i) p' n h = HasFds-set os i p' n h
HasFds-set (some p ∷ os) (suc i) p' n h = (h.0, HasFds-set os i p' n h.1)

HasFds-held :
    (os : List (Option Process)) (i : ℕ) {p : Process}
    → HasFds os
    → held os i ≡ some p
    → length p.fds ≡ max_open_files
HasFds-held [] i h e = ground arith
HasFds-held (none ∷ os) zero h e = ground arith
HasFds-held (some q ∷ os) zero {p} h e = let same : q ≡ p = ground arith in rw same at (h.0)
HasFds-held (none ∷ os) (suc i) h e = HasFds-held os i h e
HasFds-held (some q ∷ os) (suc i) h e = HasFds-held os i h.1 e

place-IsShaped :
    (place : Place) (p' : Process) (k : Kernel)
    → length p'.fds ≡ max_open_files
    → IsShaped k
    → IsShaped (put_place place p' k)
unfolding put_place
place-IsShaped (static_slot i) p' k n s = record {
  statics_len = length-set k.statics i (some p') ∙ s.statics_len;
  table_len = s.table_len;
  statics_fds = HasFds-set k.statics i p' n s.statics_fds;
  table_fds = s.table_fds;
}
place-IsShaped (table_slot i) p' k n s = record {
  statics_len = s.statics_len;
  table_len = length-set k.process_table i (some p') ∙ s.table_len;
  statics_fds = s.statics_fds;
  table_fds = HasFds-set k.process_table i p' n s.table_fds;
}

pub put_process-IsShaped :
    (id : ℕ) (p' : Process) (k : Kernel)
    → length p'.fds ≡ max_open_files
    → IsShaped k
    → IsShaped (put_process id p' k)
unfolding put_process
put_process-IsShaped id p' k n s = elim (Option-cases (locate id)) [
  | inl e ↦ rw (e, put_process) s
  | inr (place, e) ↦ rw (e, put_process) (place-IsShaped place p' k n s)
]

place-HasFds :
    (place : Place) (k : Kernel) {p : Process}
    → IsShaped k
    → at_place place k ≡ some p
    → length p.fds ≡ max_open_files
unfolding at_place
place-HasFds (static_slot i) k s e = HasFds-held k.statics i s.statics_fds e
place-HasFds (table_slot i) k s e = HasFds-held k.process_table i s.table_fds e

pub find_process-HasFds :
    (id : ℕ) (k : Kernel) {p : Process}
    → IsShaped k
    → find_process id k ≡ some p
    → length p.fds ≡ max_open_files
find_process-HasFds id k s h =
    let (place, e, at) = find_process-place id k h in place-HasFds place k s at

-- A descriptor that a lookup finds is counted.
pub lookup_fd-le-total :
    (end : End) (idx id fd : ℕ) (k : Kernel) {e : FdEntry}
    → lookup_fd id fd k ≡ some e
    → names end idx e ≤ kernel_total end idx k
unfolding lookup_fd
lookup_fd-le-total end idx id fd k {e} h = elim (Option-cases (find_process id k)) [
  | inl q ↦ absurd (ground arith)
  | inr (p, q) ↦
      let at : held p.fds fd ≡ some e = ground arith in
      omega (
        arith,
        slot_total-le end idx p.fds fd at,
        kernel_total-put end idx id (record p { fds = [] }) k q,
      )
]
