-- ===== src/Process/Refs/Sharing.antt =====
-- close_fd(), dup_fd() and dup2_fd() of kernel/src/process.rs: a count goes up before a descriptor is
-- stored, and down once it is gone.
use spikeling_os.Base.{
  is_some, ℕ, ◌≡◌, Option, none, some, Bool, true, false, arith, length-set, Option-cases,
  Bool-cases, inl, inr, ◌==◌, leb, if◌then◌else◌,
}
use spikeling_os.Process.{FdEntry, Process, Kernel, find_process, put_process, max_open_files}
use spikeling_os.Process.Fds.{with_fd, install, entry_of, lookup_fd}
use spikeling_os.Process.Ends.{close_fd, retain_entry, dup_fd, place_fd, dup_into, dup2_fd}
use spikeling_os.Process.Refs.Totals.{fd_total-clear}
use spikeling_os.Process.Refs.Covers.{
  no_extra, of_entry, IsCovered, Spends, put_process-Covers, take_fd-Covers,
}
use spikeling_os.Process.Refs.Entries.{retain_entry-Covers, release_entry-Covers}
use spikeling_os.Process.Refs.Steps.{with_process_mut-Covers, with_fd-Spends, install-Spends}
use spikeling_os.Process.Refs.Lookups.{
  close_fd-dead, close_fd-empty, close_fd-entry, lookup_fd-close_fd,
}

-- Emptying a descriptor spends nothing.
clear-Spends : (fd : ℕ) (p : Process) → Spends no_extra p (with_fd p fd none)
clear-Spends fd p =
    (length-set p.fds fd none, λ end idx. omega (arith, fd_total-clear end idx p.fds fd))

pub close_fd-IsCovered : (id fd : ℕ) (k : Kernel) → IsCovered k → IsCovered (close_fd id fd k).1
close_fd-IsCovered id fd k c = elim (Option-cases (find_process id k)) [
  | inl q ↦ rw (close_fd-dead id fd k q) c
  | inr (p, q) ↦ elim (Option-cases (entry_of p fd)) [
    | inl a ↦
        rw (close_fd-empty id fd k q a)
          (put_process-Covers no_extra id p (with_fd p fd none) k q (clear-Spends fd p) c)
    | inr (e, a) ↦ rw (close_fd-entry id fd k q a) (
        release_entry-Covers e (put_process id (with_fd p fd none) k)
          (take_fd-Covers id fd p k e q a c))
  ]
]

pub dup_fd-IsCovered : (id fd : ℕ) (k : Kernel) → IsCovered k → IsCovered (dup_fd id fd k).1
unfolding dup_fd
dup_fd-IsCovered id fd k c = elim (Option-cases (lookup_fd id fd k)) [
  | inl q ↦ rw (q, dup_fd) c
  | inr (e, q) ↦
      rw (q, dup_fd)
        (with_process_mut-Covers (of_entry e) id (install e) (retain_entry e k) (install-Spends e)
          (retain_entry-Covers e id fd k q c))
]

dup_into-IsCovered :
    (id fd newfd : ℕ) (e : FdEntry) (k : Kernel)
    → lookup_fd id fd k ≡ some e
    → IsCovered k
    → IsCovered (dup_into id newfd e k).1
unfolding dup_into place_fd
dup_into-IsCovered id fd newfd e k q c =
    with_process_mut-Covers (of_entry e) id (place_fd newfd e) (retain_entry e k)
      (with_fd-Spends e newfd) (retain_entry-Covers e id fd k q c)

pub dup2_fd-IsCovered :
    (id fd newfd : ℕ) (k : Kernel) → IsCovered k → IsCovered (dup2_fd id fd newfd k).1
unfolding dup2_fd
dup2_fd-IsCovered id fd newfd k c = elim (Bool-cases (fd == newfd)) [
  | inl e ↦ rw (e, dup2_fd) (same (is_some (lookup_fd id fd k)))
  | inr e ↦ elim (Bool-cases (leb max_open_files newfd)) [
    | inl r ↦ rw (e, r, dup2_fd) c
    | inr r ↦ elim (Option-cases (lookup_fd id fd k)) [
      | inl q ↦ rw (e, r, q, dup2_fd) c
      | inr (old, q) ↦ elim (Bool-cases (is_some (lookup_fd id newfd k))) [
        | inl t ↦
            rw (e, r, q, t, dup2_fd)
              (dup_into-IsCovered id fd newfd old (close_fd id newfd k).1
                (lookup_fd-close_fd id fd newfd k (ground arith) q)
                (close_fd-IsCovered id newfd k c))
        | inr t ↦ rw (e, r, q, t, dup2_fd) (dup_into-IsCovered id fd newfd old k q c)
      ]
    ]
  ]
]
  where
    same :
        (b : Bool)
        → IsCovered (if◌then◌else◌ {A = Option Bool × Kernel} b (some true, k) (none, k)).1
    same true = c
    same false = c
