-- ===== src/Process/Refs/Covers.antt =====
-- The invariant: a pipe's counts of open ends are never below the number of descriptors that name
-- them. How the steps of the system calls change the two sides.
use spikeling_os.Base.{
  held, ℕ, ◌+◌, ◌≤◌, ◌<◌, ◌≡◌, ◌≢◌, ap, ◌∙◌, Option, none, some, ◌==◌, if◌then◌else◌, arith, length,
  length-set, get_elem?-set_self, get_elem?-set_ne, get_elem?-lt, ℕ_discrete, subst,
}
use spikeling_os.Pipe.{Pipe}
use spikeling_os.Process.{FdEntry, Process, Kernel, find_process, put_process}
use spikeling_os.Process.Fds.{entry_of, with_fd, pipe_at, put_pipe}
use spikeling_os.Process.Refs.Totals.{
  End, reading, writing, names, fd_total, kernel_total, IsShaped, fd_total-set, get_elem?-held,
}
use spikeling_os.Process.Refs.Places.{
  kernel_total-put, put_process-IsShaped, put_process-pipe_table, find_process-HasFds,
}

abbrev pub count_of : End → Pipe → ℕ
count_of reading p = p.read_open
count_of writing p = p.write_open

abbrev pub opens_of : End → Option Pipe → ℕ
opens_of end none = 0
opens_of end (some p) = count_of end p

-- The count of open ends that the pipe table holds; a free slot counts as 0.
abbrev pub opens : End → Kernel → ℕ → ℕ
opens end k idx = opens_of end (pipe_at k idx)

-- `extra` is what is counted and not yet, or no more, in a descriptor table.
pub record Covers (extra : End → ℕ → ℕ) (k : Kernel) : Type 0 where
  pub shaped : IsShaped k
  pub covered : (end : End) (idx : ℕ) → kernel_total end idx k + extra end idx ≤ opens end k idx

abbrev pub no_extra : End → ℕ → ℕ
no_extra end idx = 0

abbrev pub of_entry : FdEntry → End → ℕ → ℕ
of_entry e end idx = names end idx e

-- The invariant between system calls.
abbrev pub IsCovered : Kernel → Type 0
IsCovered k = Covers no_extra k

pub opens-put_pipe :
    (end : End) (k : Kernel) (i idx : ℕ) (o : Option Pipe)
    → i < length k.pipe_table
    → opens end (put_pipe k i o) idx ≡ (if i == idx then opens_of end o else opens end k idx)
opens-put_pipe end k i idx o h = elim (ℕ_discrete i idx) [
  | yes e ↦
      subst (λ j. opens end (put_pipe k i o) j ≡ (if i == j then opens_of end o else opens end k j))
        e (ground (arith, get_elem?-set_self k.pipe_table i o h))
  | no e ↦ ground (arith, get_elem?-set_ne k.pipe_table {i = i} {j = idx} o e)
]

pub pipe_at-lt :
    (k : Kernel) (idx : ℕ) {p : Pipe} → pipe_at k idx ≡ some p → idx < length k.pipe_table
pipe_at-lt k idx h = get_elem?-lt k.pipe_table idx (get_elem?-held k.pipe_table idx h)

-- A process that may name what is counted for it, and nothing else.
abbrev pub Spends : (End → ℕ → ℕ) → Process → Process → Type 0
Spends extra p p' =
    (length p'.fds ≡ length p.fds)
    × ((end : End) (idx : ℕ) → fd_total end idx p'.fds ≤ fd_total end idx p.fds + extra end idx)

pub put_process-Covers :
    (extra : End → ℕ → ℕ) (id : ℕ) (p p' : Process) (k : Kernel)
    → find_process id k ≡ some p
    → Spends extra p p'
    → Covers extra k
    → IsCovered (put_process id p' k)
put_process-Covers extra id p p' k h s c = record {
  shaped = put_process-IsShaped id p' k (s.0 ∙ find_process-HasFds id k c.shaped h) c.shaped;
  covered = λ end idx. omega (
    arith,
    kernel_total-put end idx id p' k h,
    s.1 end idx,
    c.covered end idx,
    ap (λ t. opens_of end (held t idx)) (put_process-pipe_table id p' k),
  );
}

pub take_fd-Covers :
    (id fd : ℕ) (p : Process) (k : Kernel) (e : FdEntry)
    → find_process id k ≡ some p
    → entry_of p fd ≡ some e
    → IsCovered k
    → Covers (of_entry e) (put_process id (with_fd p fd none) k)
take_fd-Covers id fd p k e h at c = record {
  shaped =
      put_process-IsShaped id (with_fd p fd none) k
        (length-set p.fds fd none ∙ find_process-HasFds id k c.shaped h) c.shaped;
  covered = λ end idx. omega (
    arith,
    kernel_total-put end idx id (with_fd p fd none) k h,
    fd_total-set end idx p.fds fd none (get_elem?-held p.fds fd at),
    c.covered end idx,
    ap (λ t. opens_of end (held t idx)) (put_process-pipe_table id (with_fd p fd none) k),
  );
}

-- One pipe changes: it must cover what is owed for it, and nothing else may be owed.
pub put_pipe-Covers :
    (extra extra' : End → ℕ → ℕ) (k : Kernel) (i : ℕ) (o : Option Pipe)
    → i < length k.pipe_table
    → ((end : End) → kernel_total end i k + extra' end i ≤ opens_of end o)
    → ((end : End) (idx : ℕ) → idx ≢ i → extra' end idx ≤ extra end idx)
    → Covers extra k
    → Covers extra' (put_pipe k i o)
put_pipe-Covers extra extra' k i o h here there c = record {
  shaped = record {
    statics_len = c.shaped.statics_len;
    table_len = c.shaped.table_len;
    statics_fds = c.shaped.statics_fds;
    table_fds = c.shaped.table_fds;
  };
  covered = λ end idx. rw (opens-put_pipe end k i idx o h) (elim (ℕ_discrete idx i) [
    | yes e ↦ rw e (ground (arith, here end))
    | no e ↦ ground (arith, there end idx e, c.covered end idx)
  ]);
}

pub Covers-mono :
    (extra extra' : End → ℕ → ℕ) (k : Kernel)
    → ((end : End) (idx : ℕ) → extra' end idx ≤ extra end idx)
    → Covers extra k
    → Covers extra' k
Covers-mono extra extra' k h c = record {
  shaped = c.shaped;
  covered = λ end idx. omega (arith, h end idx, c.covered end idx);
}

-- Whoever may spend less may spend more.
pub Spends-mono :
    (extra extra' : End → ℕ → ℕ) (p p' : Process)
    → ((end : End) (idx : ℕ) → extra end idx ≤ extra' end idx)
    → Spends extra p p'
    → Spends extra' p p'
Spends-mono extra extra' p p' h s = (s.0, λ end idx. omega (arith, h end idx, s.1 end idx))

pub opens_at :
    (end : End) (k : Kernel) (i : ℕ) {o : Option Pipe}
    → pipe_at k i ≡ o
    → opens end k i ≡ opens_of end o
opens_at end k i e = ap (opens_of end) e
