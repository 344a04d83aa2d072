-- ===== src/Process/Refs/Steps.antt =====
-- The steps that the descriptor system calls of kernel/src/process.rs share, and what they spend.
use spikeling_os.Base.{
  is_none, ℕ, refl, Option, some, arith, length-set, Option-cases, inl, inr, position,
}
use spikeling_os.Process.{OpenFile, FdEntry, file, Process, Kernel, find_process, with_process_mut}
use spikeling_os.Process.Fds.{with_fd, install}
use spikeling_os.Process.Refs.Totals.{End, fd_total-set-le}
use spikeling_os.Process.Refs.Covers.{
  Covers, no_extra, of_entry, IsCovered, Spends, put_process-Covers, Covers-mono, Spends-mono,
}
use spikeling_os.Process.Refs.Entries.{names_file}

-- A closure that spends what is counted for the process leaves the invariant.
pub with_process_mut-Covers :
    {R : Type 0} (extra : End → ℕ → ℕ) (id : ℕ) (f : Process → Option R × Process) (k : Kernel)
    → ((p : Process) → Spends extra p (f p).1)
    → Covers extra k
    → IsCovered (with_process_mut id f k).1
unfolding with_process_mut
with_process_mut-Covers extra id f k s c = elim (Option-cases (find_process id k)) [
  | inl e ↦ rw (e, with_process_mut) (Covers-mono extra no_extra k (λ end idx. omega arith) c)
  | inr (p, e) ↦ rw (e, with_process_mut) (put_process-Covers extra id p (f p).1 k e (s p) c)
]

-- Storing an entry in a free slot, or over another, spends the entry.
pub with_fd-Spends :
    (e : FdEntry) (fd : ℕ) (p : Process) → Spends (of_entry e) p (with_fd p fd (some e))
with_fd-Spends e fd p =
    (length-set p.fds fd (some e), λ end idx. fd_total-set-le end idx p.fds fd e)

pub install-Spends : (e : FdEntry) (p : Process) → Spends (of_entry e) p (install e p).1
unfolding install
install-Spends e p = elim (Option-cases (position is_none p.fds)) [
  | inl q ↦ rw (q, install) (refl, λ end idx. omega arith)
  | inr (slot, q) ↦ rw (q, install) (with_fd-Spends e slot p)
]

-- A file is worth nothing.
pub file-Covers : (f : OpenFile) (k : Kernel) → IsCovered k → Covers (of_entry (file f)) k
file-Covers f k c =
    Covers-mono no_extra (of_entry (file f)) k (λ end idx. omega (arith, names_file end idx f)) c

pub file-Spends :
    (f : OpenFile) (fd : ℕ) (p : Process) → Spends no_extra p (with_fd p fd (some (file f)))
file-Spends f fd p =
    Spends-mono (of_entry (file f)) no_extra p (with_fd p fd (some (file f)))
      (λ end idx. omega (arith, names_file end idx f)) (with_fd-Spends (file f) fd p)

pub same-Spends : (p : Process) → Spends no_extra p p
same-Spends p = (refl, λ end idx. omega arith)
