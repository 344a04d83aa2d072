-- ===== src/Process/Files/Lengths.antt =====
-- kernel/src/process.rs, read_fd(): it hands out no more bytes than were asked for.
use spikeling_os.Base.{
  ℕ, ◌+◌, ◌-◌, ◌≤◌, ◌≡◌, ap, List, Option, none, some, arith, length, min, drop, length-take,
  Option-cases, inl, inr,
}
use spikeling_os.Pipe.{copy_out, read_pipe}
use spikeling_os.Pipe.Queue.{length-copy_out}
use spikeling_os.Process.{
  OpenFile, FdEntry, file, pipe_read, pipe_write, Process, Kernel, find_process, with_process_mut,
}
use spikeling_os.Process.Fds.{
  entry_of, with_fd, lookup_fd, pipe_at, pipe_read_at, read_open_file, read_file_entry, read_fd,
}

-- What is handed out, if anything is, has at most `len` bytes.
abbrev pub AtMost : {S : Type 0} → ℕ → Option (List ℕ) × S → Type 0
AtMost len (out, s) = (bytes : List ℕ) → out ≡ some bytes → length bytes ≤ len

pipe_read_at-AtMost : (idx len : ℕ) (k : Kernel) → AtMost len (pipe_read_at idx len k)
unfolding pipe_read_at read_pipe
pipe_read_at-AtMost idx len k bytes e = elim (Option-cases (pipe_at k idx)) [
  | inl n ↦ absurd (ground arith)
  | inr (pipe, q) ↦
      let got : copy_out pipe.buffer pipe.read_pos 0 (min len pipe.len) ≡ bytes = ground arith in
      omega (arith, ap length got, length-copy_out pipe.buffer pipe.read_pos 0 (min len pipe.len))
]

read_open_file-length : (f : OpenFile) (len : ℕ) → length (read_open_file f len).0 ≤ len
unfolding read_open_file
read_open_file-length f len =
    let start = min f.pos (length f.buffer) in
    let end = min (start + len) (length f.buffer) in
    omega (arith, length-take (end - start) (drop start f.buffer))

read_file_entry-AtMost : (fd len : ℕ) (p : Process) → AtMost len (read_file_entry fd len p)
unfolding read_file_entry
read_file_entry-AtMost fd len p = of_entry (entry_of p fd)
  where
    of_entry :
        (o : Option FdEntry)
        → AtMost len (elim o as (λ o. Option (List ℕ) × Process) [
          | some (file f) ↦
              let (out, f') = read_open_file f len in (some out, with_fd p fd (some (file f')))
          | _ ↦ (none, p)
        ])
    of_entry none bytes e = cc
    of_entry (some (file f)) bytes e =
        let got : (read_open_file f len).0 ≡ bytes = ground arith in
        omega (arith, ap length got, read_open_file-length f len)
    of_entry (some (pipe_read i)) bytes e = cc
    of_entry (some (pipe_write i)) bytes e = cc

with_process_mut-AtMost :
    (id len : ℕ) (f : Process → Option (List ℕ) × Process) (k : Kernel)
    → ((p : Process) → AtMost len (f p))
    → AtMost len (with_process_mut id f k)
unfolding with_process_mut
with_process_mut-AtMost id len f k h bytes e = elim (Option-cases (find_process id k)) [
  | inl n ↦ absurd (ground arith)
  | inr (p, q) ↦ h p bytes (ground arith)
]

pub read_fd-AtMost : (id fd len : ℕ) (k : Kernel) → AtMost len (read_fd id fd len k)
unfolding read_fd
read_fd-AtMost id fd len k = of_lookup (lookup_fd id fd k)
  where
    others : AtMost len (with_process_mut id (read_file_entry fd len) k)
    others =
        with_process_mut-AtMost id len (read_file_entry fd len) k (read_file_entry-AtMost fd len)

    of_lookup :
        (o : Option FdEntry)
        → AtMost len (elim o as (λ o. Option (List ℕ) × Kernel) [
          | some (pipe_read idx) ↦ pipe_read_at idx len k
          | _ ↦ with_process_mut id (read_file_entry fd len) k
        ])
    of_lookup none = others
    of_lookup (some (file f)) = others
    of_lookup (some (pipe_read i)) = pipe_read_at-AtMost i len k
    of_lookup (some (pipe_write i)) = others
