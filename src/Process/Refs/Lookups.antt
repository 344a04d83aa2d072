-- ===== src/Process/Refs/Lookups.antt =====
-- What a lookup of a descriptor finds once another descriptor is closed.
use spikeling_os.Base.{
  held, ℕ, ◌≡◌, ◌≢◌, refl, Option, none, some, arith, set, get_elem?-set_self, get_elem?-set_ne,
  get_elem?-lt, Option-cases, Bool-cases, inl, inr, List, ap, ◌∙◌, sym,
}
use spikeling_os.Process.{
  FdEntry, file, pipe_read, pipe_write, Process, Kernel, locate, Place, static_slot, table_slot,
  at_place, put_place, find_process, put_process, with_process_mut,
}
use spikeling_os.Process.Fds.{entry_of, with_fd, lookup_fd, pipe_at}
use spikeling_os.Process.Ends.{
  take_fd, release_read, release_write, persist, release_entry, close_fd, finish_close,
  finish_close,
}
use spikeling_os.Process.Refs.Totals.{get_elem?-held}
use spikeling_os.Process.Refs.Places.{find_process-place, put_process-place}

held-set_self {ℓ} :
    {A : Type ℓ} (xs : List (Option A)) (i : ℕ) (o : Option A) {a : A}
    → held xs i ≡ some a
    → held (set xs i o) i ≡ o
held-set_self xs i o h =
    rw (held, get_elem?-set_self xs i o (get_elem?-lt xs i (get_elem?-held xs i h))) refl

at_place-put_place :
    (place : Place) (p' : Process) (k : Kernel) {p : Process}
    → at_place place k ≡ some p
    → at_place place (put_place place p' k) ≡ some p'
unfolding at_place put_place
at_place-put_place (static_slot i) p' k h = held-set_self k.statics i (some p') h
at_place-put_place (table_slot i) p' k h = held-set_self k.process_table i (some p') h

find_process-at :
    (id : ℕ) (k : Kernel) (place : Place)
    → locate id ≡ some place
    → find_process id k ≡ at_place place k
unfolding find_process
find_process-at id k place e = rw (e, find_process) refl

-- A process that is put back is found.
pub find_process-put_process :
    (id : ℕ) (p' : Process) (k : Kernel) {p : Process}
    → find_process id k ≡ some p
    → find_process id (put_process id p' k) ≡ some p'
find_process-put_process id p' k h =
    let (place, e, at) = find_process-place id k h in
    find_process-at id (put_process id p' k) place e
    ∙ (ap (at_place place) (put_process-place id p' k place e) ∙ at_place-put_place place p' k at)

-- Only the processes matter to find_process().
pub find_process-same :
    (id : ℕ) (k k' : Kernel)
    → k'.statics ≡ k.statics
    → k'.process_table ≡ k.process_table
    → find_process id k' ≡ find_process id k
unfolding find_process at_place
find_process-same id k k' s t = elim (Option-cases (locate id)) [
  | inl e ↦ rw (e, find_process) refl
  | inr (place, e) ↦ rw (e, find_process) (same_place place)
]
  where
    same_place : (place : Place) → at_place place k' ≡ at_place place k
    same_place (static_slot i) = ap (λ t. held t i) s
    same_place (table_slot i) = ap (λ t. held t i) t

-- Releasing an entry changes pipes and the disk.
release-statics : (e : FdEntry) (k : Kernel) → (release_entry e k).1.statics ≡ k.statics
unfolding release_entry release_read release_write persist
release-statics (file f) k = elim (Bool-cases f.dirty) [ inl e ↦ rw e refl | inr e ↦ rw e refl ]
release-statics (pipe_read i) k = ground (arith, Option-cases (pipe_at k i))
release-statics (pipe_write i) k = ground (arith, Option-cases (pipe_at k i))

release-process_table :
    (e : FdEntry) (k : Kernel) → (release_entry e k).1.process_table ≡ k.process_table
unfolding release_entry release_read release_write persist
release-process_table (file f) k = elim (Bool-cases f.dirty) [
  | inl e ↦ rw e refl
  | inr e ↦ rw e refl
]
release-process_table (pipe_read i) k = ground (arith, Option-cases (pipe_at k i))
release-process_table (pipe_write i) k = ground (arith, Option-cases (pipe_at k i))

pub find_process-release :
    (id : ℕ) (e : FdEntry) (k : Kernel) → find_process id (release_entry e k).1 ≡ find_process id k
find_process-release id e k =
    find_process-same id k (release_entry e k).1 (release-statics e k) (release-process_table e k)

pub with_process_mut-some :
    {R : Type 0} (id : ℕ) (f : Process → Option R × Process) (k : Kernel) {p : Process}
    → find_process id k ≡ some p
    → with_process_mut id f k ≡ ((f p).0, put_process id (f p).1 k)
unfolding with_process_mut
with_process_mut-some id f k h = rw (h, with_process_mut) refl

pub with_process_mut-none :
    {R : Type 0} (id : ℕ) (f : Process → Option R × Process) (k : Kernel)
    → find_process id k ≡ none
    → with_process_mut id f k ≡ (none, k)
unfolding with_process_mut
with_process_mut-none id f k h = rw (h, with_process_mut) refl

pub close_fd-dead :
    (id fd : ℕ) (k : Kernel) → find_process id k ≡ none → close_fd id fd k ≡ (none, k)
unfolding close_fd
close_fd-dead id fd k h = ap finish_close (with_process_mut-none id (take_fd fd) k h)

pub close_fd-empty :
    (id fd : ℕ) (k : Kernel) {p : Process}
    → find_process id k ≡ some p
    → entry_of p fd ≡ none
    → close_fd id fd k ≡ (none, put_process id (with_fd p fd none) k)
unfolding close_fd take_fd
close_fd-empty id fd k {p} h a =
    ap finish_close (with_process_mut-some id (take_fd fd) k h)
    ∙ ap (λ o. finish_close (o, put_process id (with_fd p fd none) k)) a

pub close_fd-entry :
    (id fd : ℕ) (k : Kernel) {p : Process} {e : FdEntry}
    → find_process id k ≡ some p
    → entry_of p fd ≡ some e
    → close_fd id fd k ≡ release_entry e (put_process id (with_fd p fd none) k)
unfolding close_fd take_fd
close_fd-entry id fd k {p} h a =
    ap finish_close (with_process_mut-some id (take_fd fd) k h)
    ∙ ap (λ o. finish_close (o, put_process id (with_fd p fd none) k)) a

-- The process as close_fd() leaves it.
pub find_process-close_fd :
    (id fd : ℕ) (k : Kernel) {p : Process}
    → find_process id k ≡ some p
    → find_process id (close_fd id fd k).1 ≡ some (with_fd p fd none)
find_process-close_fd id fd k {p} h = elim (Option-cases (entry_of p fd)) [
  | inl a ↦ rw (close_fd-empty id fd k h a) (find_process-put_process id (with_fd p fd none) k h)
  | inr (e, a) ↦ rw (close_fd-entry id fd k h a) (
      find_process-release id e (put_process id (with_fd p fd none) k)
      ∙ find_process-put_process id (with_fd p fd none) k h)
]

pub lookup_fd-close_fd :
    (id fd other : ℕ) (k : Kernel) {e : FdEntry}
    → fd ≢ other
    → lookup_fd id fd k ≡ some e
    → lookup_fd id fd (close_fd id other k).1 ≡ some e
unfolding lookup_fd
lookup_fd-close_fd id fd other k ne h = elim (Option-cases (find_process id k)) [
  | inl q ↦ absurd (ground arith)
  | inr (p, q) ↦
      rw (lookup_fd, find_process-close_fd id other k q)
        (ground (arith, get_elem?-set_ne p.fds {i = other} {j = fd} none (λ e. ne (sym e))))
]
