-- ===== src/Process/Ends.antt =====
-- kernel/src/process.rs, the system calls that open, share and release descriptors of pipes:
-- pipe_create(), close_fd(), dup_fd() and dup2_fd(), and the counts of open ends that they keep.
use spikeling_os.Base.{
  is_none, is_some, ℕ, ◌+◌, ◌-◌, ◌^◌, min, leb, ◌==◌, List, [], ◌∷◌, Option, none, some, Bool, true,
  false, ◌&&◌, if◌then◌else◌, position,
}
use spikeling_os.Base.Result.{ok, err}
use spikeling_os.Fs.Ops.{write_file}
use spikeling_os.Pipe.{Pipe, new_pipe}
use spikeling_os.Process.{
  OpenFile, FdEntry, file, pipe_read, pipe_write, Process, Kernel, max_open_files, find_process,
  put_process, with_process_mut,
}
use spikeling_os.Process.Fds.{entry_of, with_fd, install, lookup_fd, pipe_at, put_pipe}

abbrev pub u32_max : ℕ
u32_max = 2 ^ 32 - 1

-- `saturating_add(1)`; `saturating_sub(1)` is `- 1`.
abbrev pub saturating_inc : ℕ → ℕ
saturating_inc n = min (n + 1) u32_max

-- `proc.fds.iter().enumerate().filter(free)`: the free slots from number `i` on.
unfoldable pub free_slots : ℕ → List (Option FdEntry) → List ℕ
free_slots i [] = []
free_slots i (e ∷ es) = let rest = free_slots (i + 1) es in if is_none e then i ∷ rest else rest

abbrev pub two_slots : List ℕ → Option (ℕ × ℕ)
two_slots [] = none
two_slots (a ∷ []) = none
two_slots (a ∷ b ∷ rest) = some (a, b)

-- The closure of pipe_create().
unfoldable pub install_pipe : ℕ → Process → Option (ℕ × ℕ) × Process
install_pipe idx p = elim (two_slots (free_slots 0 p.fds)) [
  | none ↦ (none, p)
  | some (r, w) ↦
      (some (r, w), with_fd (with_fd p r (some (pipe_read idx))) w (some (pipe_write idx)))
]

-- The process gets the two ends of pipe `idx`, or the table slot is given back.
unfoldable pub connect : ℕ → ℕ → Process → Kernel → Option (ℕ × ℕ) × Kernel
connect id idx p k =
    let (ends, p') = install_pipe idx p in
    let k' = put_process id p' k in
    if is_some ends then (ends, k') else (none, put_pipe k' idx none)

-- The table slot is taken first; it is given back if the process has no two free descriptors, but
-- not if there is no such process.
unfoldable pub pipe_create : ℕ → Kernel → Option (ℕ × ℕ) × Kernel
pipe_create id k = elim (position is_none k.pipe_table) [
  | none ↦ (none, k)
  | some idx ↦
      let k1 = put_pipe k idx (some new_pipe) in
      elim (find_process id k1) [ none ↦ (none, k1) | some p ↦ connect id idx p k1 ]
]

-- A pipe with no open end left gives its slot back.
abbrev pub keep_open : Pipe → Option Pipe
keep_open pipe = if (pipe.read_open == 0) && (pipe.write_open == 0) then none else some pipe

unfoldable pub release_read : ℕ → Kernel → Kernel
release_read idx k = elim (pipe_at k idx) [
  | none ↦ k
  | some pipe ↦ put_pipe k idx (keep_open (record pipe { read_open = pipe.read_open - 1 }))
]

unfoldable pub release_write : ℕ → Kernel → Kernel
release_write idx k = elim (pipe_at k idx) [
  | none ↦ k
  | some pipe ↦ put_pipe k idx (keep_open (record pipe { write_open = pipe.write_open - 1 }))
]

unfoldable pub take_fd : ℕ → Process → Option FdEntry × Process
take_fd fd p = (entry_of p fd, with_fd p fd none)

-- A file is written back if it is dirty; a failure is reported, and the descriptor is gone.
unfoldable pub persist : OpenFile → Kernel → Option Bool × Kernel
persist f k =
    let (result, d') = write_file f.path f.buffer k.disk in
    let written : Bool = elim result [ ok u ↦ true | err e ↦ false ] in
    if f.dirty then (some written, record k { disk = d' }) else (some true, k)

unfoldable pub release_entry : FdEntry → Kernel → Option Bool × Kernel
release_entry (pipe_read idx) k = (some true, release_read idx k)
release_entry (pipe_write idx) k = (some true, release_write idx k)
release_entry (file f) k = persist f k

-- What close_fd() does with the entry once it is out of the descriptor table.
abbrev pub finish_close : Option FdEntry × Kernel → Option Bool × Kernel
finish_close (none, k) = (none, k)
finish_close (some e, k) = release_entry e k

unfoldable pub close_fd : ℕ → ℕ → Kernel → Option Bool × Kernel
close_fd id fd k = finish_close (with_process_mut id (take_fd fd) k)

unfoldable pub retain_read : ℕ → Kernel → Kernel
retain_read idx k = elim (pipe_at k idx) [
  | none ↦ k
  | some pipe ↦ put_pipe k idx (some (record pipe { read_open = saturating_inc pipe.read_open }))
]

unfoldable pub retain_write : ℕ → Kernel → Kernel
retain_write idx k = elim (pipe_at k idx) [
  | none ↦ k
  | some pipe ↦ put_pipe k idx (some (record pipe { write_open = saturating_inc pipe.write_open }))
]

-- The count of a pipe end that is cloned goes up; a file is copied with no count.
unfoldable pub retain_entry : FdEntry → Kernel → Kernel
retain_entry (pipe_read idx) k = retain_read idx k
retain_entry (pipe_write idx) k = retain_write idx k
retain_entry (file f) k = k

-- The count goes up before a free slot is looked for.
unfoldable pub dup_fd : ℕ → ℕ → Kernel → Option ℕ × Kernel
dup_fd id fd k = elim (lookup_fd id fd k) [
  | none ↦ (none, k)
  | some cloned ↦ with_process_mut id (install cloned) (retain_entry cloned k)
]

unfoldable pub place_fd : ℕ → FdEntry → Process → Option Bool × Process
place_fd fd e p = (some true, with_fd p fd (some e))

-- The rest of dup2_fd(), once what `newfd` held is closed.
unfoldable pub dup_into : ℕ → ℕ → FdEntry → Kernel → Option Bool × Kernel
dup_into id newfd cloned k = with_process_mut id (place_fd newfd cloned) (retain_entry cloned k)

unfoldable pub dup2_fd : ℕ → ℕ → ℕ → Kernel → Option Bool × Kernel
dup2_fd id fd newfd k =
    if fd == newfd
    then (if is_some (lookup_fd id fd k) then (some true, k) else (none, k))
    else if leb max_open_files newfd
    then (none, k)
    else elim (lookup_fd id fd k) [
      | none ↦ (none, k)
      | some cloned ↦
          if is_some (lookup_fd id newfd k)
          then dup_into id newfd cloned (close_fd id newfd k).1
          else dup_into id newfd cloned k
    ]
