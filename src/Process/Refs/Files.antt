-- ===== src/Process/Refs/Files.antt =====
-- open_file(), read_fd() and write_fd() of kernel/src/process.rs, with the bodies of pipe_read() and
-- pipe_write(): none of them moves a count.
use spikeling_os.Base.{ℕ, ◌≡◌, refl, some, false, List, arith, Option-cases, inl, inr}
use spikeling_os.Pipe.{Pipe, read_pipe, write_pipe}
use spikeling_os.Process.{
  OpenFile, FdEntry, file, pipe_read, pipe_write, Process, Kernel, with_process_mut,
}
use spikeling_os.Process.Fds.{
  install, entry_of, initial_buffer, open_file, lookup_fd, pipe_at, put_pipe, pipe_read_at,
  pipe_write_at, read_open_file, write_open_file, read_file_entry, write_file_entry, read_fd,
  write_fd,
}
use spikeling_os.Process.Refs.Totals.{End, reading, writing}
use spikeling_os.Process.Refs.Covers.{
  no_extra, of_entry, IsCovered, Spends, put_pipe-Covers, pipe_at-lt, count_of, opens_at,
}
use spikeling_os.Process.Refs.Steps.{
  with_process_mut-Covers, install-Spends, file-Covers, file-Spends, same-Spends,
}

pub open_file-IsCovered :
    (id : ℕ) (path : List ℕ) (k : Kernel) → IsCovered k → IsCovered (open_file id path k).1
unfolding open_file
open_file-IsCovered id path k c =
    let f : OpenFile = record {
      path = path;
      buffer = initial_buffer path k.disk;
      pos = 0;
      dirty = false;
    } in
    with_process_mut-Covers (of_entry (file f)) id (install (file f)) k (install-Spends (file f))
      (file-Covers f k c)

read_file_entry-Spends : (fd len : ℕ) (p : Process) → Spends no_extra p (read_file_entry fd len p).1
unfolding read_file_entry
read_file_entry-Spends fd len p = elim (Option-cases (entry_of p fd)) [
  | inl q ↦ rw (q, read_file_entry) (same-Spends p)
  | inr (e, q) ↦ by_entry e q
]
  where
    by_entry :
        (e : FdEntry) → entry_of p fd ≡ some e → Spends no_extra p (read_file_entry fd len p).1
    by_entry (file f) q = rw (q, read_file_entry) (file-Spends (read_open_file f len).1 fd p)
    by_entry (pipe_read i) q = rw (q, read_file_entry) (same-Spends p)
    by_entry (pipe_write i) q = rw (q, read_file_entry) (same-Spends p)

write_file_entry-Spends :
    (fd : ℕ) (bytes : List ℕ) (p : Process) → Spends no_extra p (write_file_entry fd bytes p).1
unfolding write_file_entry
write_file_entry-Spends fd bytes p = elim (Option-cases (entry_of p fd)) [
  | inl q ↦ rw (q, write_file_entry) (same-Spends p)
  | inr (e, q) ↦ by_entry e q
]
  where
    by_entry :
        (e : FdEntry) → entry_of p fd ≡ some e → Spends no_extra p (write_file_entry fd bytes p).1
    by_entry (file f) q = rw (q, write_file_entry) (file-Spends (write_open_file f bytes).1 fd p)
    by_entry (pipe_read i) q = rw (q, write_file_entry) (same-Spends p)
    by_entry (pipe_write i) q = rw (q, write_file_entry) (same-Spends p)

-- A pipe whose bytes move keeps its counts.
refill-Covers :
    (i : ℕ) (pipe pipe' : Pipe) (k : Kernel)
    → pipe_at k i ≡ some pipe
    → ((end : End) → count_of end pipe' ≡ count_of end pipe)
    → IsCovered k
    → IsCovered (put_pipe k i (some pipe'))
refill-Covers i pipe pipe' k e h c =
    put_pipe-Covers no_extra no_extra k i (some pipe') (pipe_at-lt k i e)
      (λ end. omega (arith, h end, opens_at end k i e, c.covered end i)) (λ end idx ne. omega arith)
      c

count_of-read_pipe :
    (pipe : Pipe) (len : ℕ) (end : End) → count_of end (read_pipe pipe len).1 ≡ count_of end pipe
unfolding read_pipe
count_of-read_pipe pipe len reading = refl
count_of-read_pipe pipe len writing = refl

count_of-write_pipe :
    (pipe : Pipe) (bytes : List ℕ) (end : End)
    → count_of end (write_pipe pipe bytes).1 ≡ count_of end pipe
unfolding write_pipe
count_of-write_pipe pipe bytes reading = refl
count_of-write_pipe pipe bytes writing = refl

pipe_read_at-IsCovered : (i len : ℕ) (k : Kernel) → IsCovered k → IsCovered (pipe_read_at i len k).1
unfolding pipe_read_at
pipe_read_at-IsCovered i len k c = elim (Option-cases (pipe_at k i)) [
  | inl e ↦ rw (e, pipe_read_at) c
  | inr (pipe, e) ↦
      rw (e, pipe_read_at)
        (refill-Covers i pipe (read_pipe pipe len).1 k e (count_of-read_pipe pipe len) c)
]

pipe_write_at-IsCovered :
    (i : ℕ) (bytes : List ℕ) (k : Kernel) → IsCovered k → IsCovered (pipe_write_at i bytes k).1
unfolding pipe_write_at
pipe_write_at-IsCovered i bytes k c = elim (Option-cases (pipe_at k i)) [
  | inl e ↦ rw (e, pipe_write_at) c
  | inr (pipe, e) ↦
      rw (e, pipe_write_at)
        (refill-Covers i pipe (write_pipe pipe bytes).1 k e (count_of-write_pipe pipe bytes) c)
]

pub read_fd-IsCovered :
    (id fd len : ℕ) (k : Kernel) → IsCovered k → IsCovered (read_fd id fd len k).1
unfolding read_fd
read_fd-IsCovered id fd len k c = elim (Option-cases (lookup_fd id fd k)) [
  | inl q ↦ rw (q, read_fd) from_file
  | inr (e, q) ↦ by_entry e q
]
  where
    from_file : IsCovered (with_process_mut id (read_file_entry fd len) k).1
    from_file =
        with_process_mut-Covers no_extra id (read_file_entry fd len) k
          (read_file_entry-Spends fd len) c

    by_entry : (e : FdEntry) → lookup_fd id fd k ≡ some e → IsCovered (read_fd id fd len k).1
    by_entry (file f) q = rw (q, read_fd) from_file
    by_entry (pipe_read i) q = rw (q, read_fd) (pipe_read_at-IsCovered i len k c)
    by_entry (pipe_write i) q = rw (q, read_fd) from_file

pub write_fd-IsCovered :
    (id fd : ℕ) (bytes : List ℕ) (k : Kernel) → IsCovered k → IsCovered (write_fd id fd bytes k).1
unfolding write_fd
write_fd-IsCovered id fd bytes k c = elim (Option-cases (lookup_fd id fd k)) [
  | inl q ↦ rw (q, write_fd) to_file
  | inr (e, q) ↦ by_entry e q
]
  where
    to_file : IsCovered (with_process_mut id (write_file_entry fd bytes) k).1
    to_file =
        with_process_mut-Covers no_extra id (write_file_entry fd bytes) k
          (write_file_entry-Spends fd bytes) c

    by_entry : (e : FdEntry) → lookup_fd id fd k ≡ some e → IsCovered (write_fd id fd bytes k).1
    by_entry (file f) q = rw (q, write_fd) to_file
    by_entry (pipe_read i) q = rw (q, write_fd) to_file
    by_entry (pipe_write i) q = rw (q, write_fd) (pipe_write_at-IsCovered i bytes k c)
