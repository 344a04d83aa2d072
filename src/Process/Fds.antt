-- ===== src/Process/Fds.antt =====
-- kernel/src/process.rs, the descriptor system calls on files and pipe ends: open_file(), read_fd() and
-- write_fd(), with pipe_read() and pipe_write() on a descriptor that has been resolved.
use spikeling_os.Base.{
  held, is_none, ℕ, ◌+◌, ◌-◌, min, ltb, List, [], ◌++◌, Option, none, some, true, false,
  if◌then◌else◌, length, set, take, drop, replicate, position,
}
use spikeling_os.Base.Result.{ok, err}
use spikeling_os.Ata.{Disk}
use spikeling_os.Fs.Ops.{max_file_bytes}
use spikeling_os.Fs.Read.{read_file}
use spikeling_os.Pipe.{Pipe, read_pipe, write_pipe}
use spikeling_os.Process.{
  OpenFile, FdEntry, file, pipe_read, pipe_write, Process, Kernel, find_process, with_process_mut,
}

abbrev pub entry_of : Process → ℕ → Option FdEntry
entry_of p fd = held p.fds fd

abbrev pub with_fd : Process → ℕ → Option FdEntry → Process
with_fd p fd e = record p { fds = set p.fds fd e }

-- `fds.iter().position(|f| f.is_none())`, then the entry is stored there.
unfoldable pub install : FdEntry → Process → Option ℕ × Process
install entry p = elim (position is_none p.fds) [
  | none ↦ (none, p)
  | some slot ↦ (some slot, with_fd p slot (some entry))
]

-- A path that cannot be read counts as an empty file.
abbrev pub initial_buffer : List ℕ → Disk → List ℕ
initial_buffer path d = elim (read_file path d) [ ok bytes ↦ bytes | err e ↦ [] ]

unfoldable pub open_file : ℕ → List ℕ → Kernel → Option ℕ × Kernel
open_file id path k =
    let opened : OpenFile = record {
      path = path;
      buffer = initial_buffer path k.disk;
      pos = 0;
      dirty = false;
    } in
    with_process_mut id (install (file opened)) k

-- The descriptor's entry in a live process.
unfoldable pub lookup_fd : ℕ → ℕ → Kernel → Option FdEntry
lookup_fd id fd k = elim (find_process id k) [ none ↦ none | some p ↦ entry_of p fd ]

abbrev pub pipe_at : Kernel → ℕ → Option Pipe
pipe_at k idx = held k.pipe_table idx

abbrev pub put_pipe : Kernel → ℕ → Option Pipe → Kernel
put_pipe k idx p = record k { pipe_table = set k.pipe_table idx p }

-- `pipe_read(id, fd, len)`, the descriptor resolved to a pipe.
unfoldable pub pipe_read_at : ℕ → ℕ → Kernel → Option (List ℕ) × Kernel
pipe_read_at idx len k = elim (pipe_at k idx) [
  | none ↦ (none, k)
  | some pipe ↦ let (out, pipe') = read_pipe pipe len in (some out, put_pipe k idx (some pipe'))
]

unfoldable pub pipe_write_at : ℕ → List ℕ → Kernel → Option ℕ × Kernel
pipe_write_at idx bytes k = elim (pipe_at k idx) [
  | none ↦ (none, k)
  | some pipe ↦ let (n, pipe') = write_pipe pipe bytes in (some n, put_pipe k idx (some pipe'))
]

-- The part of an open file's buffer that a read hands out, and the file with its cursor moved.
unfoldable pub read_open_file : OpenFile → ℕ → List ℕ × OpenFile
read_open_file f len =
    let start = min f.pos (length f.buffer) in
    let end = min (start + len) (length f.buffer) in
    (take (end - start) (drop start f.buffer), record f { pos = end })

-- `buffer.resize(n, 0)` where it is shorter.
abbrev pub grow : List ℕ → ℕ → List ℕ
grow buffer n = if ltb (length buffer) n then buffer ++ replicate (n - length buffer) 0 else buffer

-- `buffer[start..start + xs.len()].copy_from_slice(xs)`
abbrev pub splice : List ℕ → ℕ → List ℕ → List ℕ
splice buffer start xs = take start buffer ++ (xs ++ drop (start + length xs) buffer)

unfoldable pub write_open_file : OpenFile → List ℕ → ℕ × OpenFile
write_open_file f bytes =
    let start = f.pos in
    let n = min (length bytes) (max_file_bytes - start) in
    (
      n,
      record f {
        buffer = splice (grow f.buffer (start + n)) start (take n bytes);
        pos = start + n;
        dirty = true;
      },
    )

-- The branch of read_fd() and of write_fd() for anything but the matching pipe end.
unfoldable pub read_file_entry : ℕ → ℕ → Process → Option (List ℕ) × Process
read_file_entry fd len p = elim (entry_of p fd) [
  | some (file f) ↦
      let (out, f') = read_open_file f len in (some out, with_fd p fd (some (file f')))
  | _ ↦ (none, p)
]

unfoldable pub write_file_entry : ℕ → List ℕ → Process → Option ℕ × Process
write_file_entry fd bytes p = elim (entry_of p fd) [
  | some (file f) ↦ let (n, f') = write_open_file f bytes in (some n, with_fd p fd (some (file f')))
  | _ ↦ (none, p)
]

unfoldable pub read_fd : ℕ → ℕ → ℕ → Kernel → Option (List ℕ) × Kernel
read_fd id fd len k = elim (lookup_fd id fd k) [
  | some (pipe_read idx) ↦ pipe_read_at idx len k
  | _ ↦ with_process_mut id (read_file_entry fd len) k
]

unfoldable pub write_fd : ℕ → ℕ → List ℕ → Kernel → Option ℕ × Kernel
write_fd id fd bytes k = elim (lookup_fd id fd k) [
  | some (pipe_write idx) ↦ pipe_write_at idx bytes k
  | _ ↦ with_process_mut id (write_file_entry fd bytes) k
]
