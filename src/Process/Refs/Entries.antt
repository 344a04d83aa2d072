-- ===== src/Process/Refs/Entries.antt =====
-- How retain_entry and release_entry, the two places of kernel/src/process.rs that change a pipe's
-- counts for a descriptor, move the invariant.
use spikeling_os.Base.{ℕ, ◌+◌, ◌-◌, ◌≤◌, ◌≡◌, refl, some, arith, Option-cases, Bool-cases, inl, inr}
use spikeling_os.Ata.{Disk}
use spikeling_os.Fs.Ops.{write_file}
use spikeling_os.Pipe.{Pipe}
use spikeling_os.Process.{OpenFile, FdEntry, file, pipe_read, pipe_write, Kernel}
use spikeling_os.Process.Fds.{lookup_fd, pipe_at}
use spikeling_os.Process.Ends.{
  saturating_inc, keep_open, release_read, release_write, release_entry, retain_read, retain_write,
  retain_entry, persist,
}
use spikeling_os.Process.Refs.Totals.{
  End, reading, writing, names, kernel_total, kernel_total-le, names-le_one, names_ne_read,
  names_ne_write,
}
use spikeling_os.Process.Refs.Places.{lookup_fd-le-total}
use spikeling_os.Process.Refs.Covers.{
  count_of, opens_of, Covers, no_extra, of_entry, IsCovered, put_pipe-Covers, pipe_at-lt,
  Covers-mono, opens_at,
}

-- What is owed for one entry more.
abbrev pub plus : (End → ℕ → ℕ) → FdEntry → End → ℕ → ℕ
plus extra e end idx = extra end idx + names end idx e

-- The count of a cloned entry goes up with room to spare: it saturates far above 48.
retain_read-Covers :
    (extra : End → ℕ → ℕ) (i : ℕ) (k : Kernel)
    → 1 ≤ kernel_total reading i k
    → ((end : End) (idx : ℕ) → extra end idx ≤ 4)
    → Covers extra k
    → Covers (plus extra (pipe_read i)) (retain_read i k)
unfolding retain_read
retain_read-Covers extra i k live small c = elim (Option-cases (pipe_at k i)) [
  | inl e ↦ absurd (ground (arith, c.covered reading i))
  | inr (pipe, e) ↦
      rw (e, retain_read)
        (put_pipe-Covers extra (plus extra (pipe_read i)) k i
          (some (record pipe { read_open = saturating_inc pipe.read_open })) (pipe_at-lt k i e)
          (retained pipe e) (λ end idx ne. omega (arith, names_ne_read end idx i ne)) c)
]
  where
    retained :
        (pipe : Pipe)
        → pipe_at k i ≡ some pipe
        → (end : End)
        → kernel_total end i k + plus extra (pipe_read i) end i
          ≤ count_of end (record pipe { read_open = saturating_inc pipe.read_open })
    retained pipe e reading = omega (
      arith,
      opens_at reading k i e,
      c.covered reading i,
      kernel_total-le reading i k c.shaped,
      small reading i,
      names-le_one reading i (pipe_read i),
    )
    retained pipe e writing = omega (arith, opens_at writing k i e, c.covered writing i)

retain_write-Covers :
    (extra : End → ℕ → ℕ) (i : ℕ) (k : Kernel)
    → 1 ≤ kernel_total writing i k
    → ((end : End) (idx : ℕ) → extra end idx ≤ 4)
    → Covers extra k
    → Covers (plus extra (pipe_write i)) (retain_write i k)
unfolding retain_write
retain_write-Covers extra i k live small c = elim (Option-cases (pipe_at k i)) [
  | inl e ↦ absurd (ground (arith, c.covered writing i))
  | inr (pipe, e) ↦
      rw (e, retain_write)
        (put_pipe-Covers extra (plus extra (pipe_write i)) k i
          (some (record pipe { write_open = saturating_inc pipe.write_open })) (pipe_at-lt k i e)
          (retained pipe e) (λ end idx ne. omega (arith, names_ne_write end idx i ne)) c)
]
  where
    retained :
        (pipe : Pipe)
        → pipe_at k i ≡ some pipe
        → (end : End)
        → kernel_total end i k + plus extra (pipe_write i) end i
          ≤ count_of end (record pipe { write_open = saturating_inc pipe.write_open })
    retained pipe e reading = omega (arith, opens_at reading k i e, c.covered reading i)
    retained pipe e writing = omega (
      arith,
      opens_at writing k i e,
      c.covered writing i,
      kernel_total-le writing i k c.shaped,
      small writing i,
      names-le_one writing i (pipe_write i),
    )

pub names_file : (end : End) (idx : ℕ) (f : OpenFile) → names end idx (file f) ≡ 0
names_file reading idx f = refl
names_file writing idx f = refl

-- Where some descriptor names the pipe end already, the count covers one more.
pub retain_entry-plus :
    (extra : End → ℕ → ℕ) (e : FdEntry) (k : Kernel)
    → ((end : End) (idx : ℕ) → names end idx e ≤ kernel_total end idx k)
    → ((end : End) (idx : ℕ) → extra end idx ≤ 4)
    → Covers extra k
    → Covers (plus extra e) (retain_entry e k)
unfolding retain_entry
retain_entry-plus extra (file f) k named small c =
    Covers-mono extra (plus extra (file f)) k (λ end idx. omega (arith, names_file end idx f)) c
retain_entry-plus extra (pipe_read i) k named small c =
    retain_read-Covers extra i k (ground (arith, named reading i)) small c
retain_entry-plus extra (pipe_write i) k named small c =
    retain_write-Covers extra i k (ground (arith, named writing i)) small c

pub retain_entry-Covers :
    (e : FdEntry) (id fd : ℕ) (k : Kernel)
    → lookup_fd id fd k ≡ some e
    → IsCovered k
    → Covers (of_entry e) (retain_entry e k)
retain_entry-Covers e id fd k h c =
    Covers-mono (plus no_extra e) (of_entry e) (retain_entry e k) (λ end idx. omega arith)
      (retain_entry-plus no_extra e k (λ end idx. lookup_fd-le-total end idx id fd k h)
        (λ end idx. omega arith) c)

-- What keep_open() stores still covers what is left.
kept : (end : End) (pipe : Pipe) (n : ℕ) → n ≤ count_of end pipe → n ≤ opens_of end (keep_open pipe)
kept reading pipe n h = ground arith
kept writing pipe n h = ground arith

release_read-Covers :
    (i : ℕ) (k : Kernel) → Covers (of_entry (pipe_read i)) k → IsCovered (release_read i k)
unfolding release_read
release_read-Covers i k c = elim (Option-cases (pipe_at k i)) [
  | inl e ↦
      rw (e, release_read)
        (Covers-mono (of_entry (pipe_read i)) no_extra k (λ end idx. omega arith) c)
  | inr (pipe, e) ↦
      let less = record pipe { read_open = pipe.read_open - 1 } in
      rw (e, release_read)
        (put_pipe-Covers (of_entry (pipe_read i)) no_extra k i (keep_open less) (pipe_at-lt k i e)
          (λ end. kept end less (kernel_total end i k + 0) (left pipe e end))
          (λ end idx ne. omega arith) c)
]
  where
    self : names reading i (pipe_read i) ≡ 1
    self = ground arith

    left :
        (pipe : Pipe)
        → pipe_at k i ≡ some pipe
        → (end : End)
        → kernel_total end i k + 0 ≤ count_of end (record pipe { read_open = pipe.read_open - 1 })
    left pipe e reading = omega (arith, opens_at reading k i e, c.covered reading i, self)
    left pipe e writing = omega (arith, opens_at writing k i e, c.covered writing i)

release_write-Covers :
    (i : ℕ) (k : Kernel) → Covers (of_entry (pipe_write i)) k → IsCovered (release_write i k)
unfolding release_write
release_write-Covers i k c = elim (Option-cases (pipe_at k i)) [
  | inl e ↦
      rw (e, release_write)
        (Covers-mono (of_entry (pipe_write i)) no_extra k (λ end idx. omega arith) c)
  | inr (pipe, e) ↦
      let less = record pipe { write_open = pipe.write_open - 1 } in
      rw (e, release_write)
        (put_pipe-Covers (of_entry (pipe_write i)) no_extra k i (keep_open less) (pipe_at-lt k i e)
          (λ end. kept end less (kernel_total end i k + 0) (left pipe e end))
          (λ end idx ne. omega arith) c)
]
  where
    self : names writing i (pipe_write i) ≡ 1
    self = ground arith

    left :
        (pipe : Pipe)
        → pipe_at k i ≡ some pipe
        → (end : End)
        → kernel_total end i k + 0 ≤ count_of end (record pipe { write_open = pipe.write_open - 1 })
    left pipe e reading = omega (arith, opens_at reading k i e, c.covered reading i)
    left pipe e writing = omega (arith, opens_at writing k i e, c.covered writing i, self)

with_disk-Covers : (d : Disk) (k : Kernel) → IsCovered k → IsCovered (record k { disk = d })
with_disk-Covers d k c = record {
  shaped = record {
    statics_len = c.shaped.statics_len;
    table_len = c.shaped.table_len;
    statics_fds = c.shaped.statics_fds;
    table_fds = c.shaped.table_fds;
  };
  covered = c.covered;
}

persist-Covers : (f : OpenFile) (k : Kernel) → IsCovered k → IsCovered (persist f k).1
unfolding persist
persist-Covers f k c = elim (Bool-cases f.dirty) [
  | inl e ↦ rw e (with_disk-Covers (write_file f.path f.buffer k.disk).1 k c)
  | inr e ↦ rw e c
]

pub release_entry-Covers :
    (e : FdEntry) (k : Kernel) → Covers (of_entry e) k → IsCovered (release_entry e k).1
unfolding release_entry
release_entry-Covers (file f) k c =
    persist-Covers f k (Covers-mono (of_entry (file f)) no_extra k (λ end idx. omega arith) c)
release_entry-Covers (pipe_read i) k c = release_read-Covers i k c
release_entry-Covers (pipe_write i) k c = release_write-Covers i k c
