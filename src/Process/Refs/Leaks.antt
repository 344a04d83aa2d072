-- ===== src/Process/Refs/Leaks.antt =====
-- A path of kernel/src/process.rs on which a pipe's count stays above what the descriptors name, so
-- that closing every descriptor does not give the pipe's slot back.
use spikeling_os.Base.{
  ℕ, ◌+◌, ◌<◌, ◌≡◌, refl, ap, ◌∙◌, Option, none, some, arith, length, position, is_none, held,
  get_elem?-set_self,
}
use spikeling_os.Pipe.{Pipe}
use spikeling_os.Process.{
  FdEntry, pipe_read, Process, Kernel, find_process, put_process, with_process_mut,
}
use spikeling_os.Process.Fds.{entry_of, install, lookup_fd, pipe_at, put_pipe}
use spikeling_os.Process.Ends.{u32_max, saturating_inc, retain_read, retain_entry, dup_fd}
use spikeling_os.Process.Refs.Totals.{reading, kernel_total}
use spikeling_os.Process.Refs.Places.{kernel_total-put, put_process-pipe_table}
use spikeling_os.Process.Refs.Covers.{opens, opens_of, pipe_at-lt}
use spikeling_os.Process.Refs.Lookups.{find_process-same, with_process_mut-some}

retain_read-some :
    (i : ℕ) (k : Kernel) (pipe : Pipe)
    → pipe_at k i ≡ some pipe
    → retain_read i k
      ≡ put_pipe k i (some (record pipe { read_open = saturating_inc pipe.read_open }))
unfolding retain_read
retain_read-some i k pipe h = rw (h, retain_read) refl

held_put :
    (k : Kernel) (i : ℕ) (o : Option Pipe)
    → i < length k.pipe_table
    → pipe_at (put_pipe k i o) i ≡ o
held_put k i o h = rw (held, get_elem?-set_self k.pipe_table i o h) refl

install-full : (e : FdEntry) (p : Process) → position is_none p.fds ≡ none → install e p ≡ (none, p)
unfolding install
install-full e p h = rw (h, install) refl

dup_fd-full :
    (id fd i : ℕ) (k : Kernel) (p : Process) (pipe : Pipe)
    → find_process id k ≡ some p
    → entry_of p fd ≡ some (pipe_read i)
    → pipe_at k i ≡ some pipe
    → position is_none p.fds ≡ none
    → dup_fd id fd k ≡ (
      none,
      put_process id p
          (put_pipe k i (some (record pipe { read_open = saturating_inc pipe.read_open }))),
    )
unfolding dup_fd lookup_fd retain_entry
dup_fd-full id fd i k p pipe live at there full =
    let k1 = put_pipe k i (some (record pipe { read_open = saturating_inc pipe.read_open })) in
    let copied =
      with_process_mut-some id (install (pipe_read i)) k1
        (find_process-same id k k1 refl refl ∙ live) in
    rw (dup_fd, live, at)
      (ap (with_process_mut id (install (pipe_read i))) (retain_read-some i k pipe there)
        ∙ copied
        ∙ ap (λ r. (r.0, put_process id r.1 k1)) (install-full (pipe_read i) p full))

-- When dup_fd() is asked to copy a pipe's read end and the process has no free descriptor, it answers
-- `None`, no descriptor is added, and the count of read ends is higher by one all the same.
pub dup_fd-leak :
    (id fd i : ℕ) (k : Kernel) (p : Process) (pipe : Pipe)
    → find_process id k ≡ some p
    → entry_of p fd ≡ some (pipe_read i)
    → pipe_at k i ≡ some pipe
    → position is_none p.fds ≡ none
    → pipe.read_open < u32_max
    → ((dup_fd id fd k).0 ≡ none)
      × (opens reading (dup_fd id fd k).1 i ≡ opens reading k i + 1)
      × (kernel_total reading i (dup_fd id fd k).1 ≡ kernel_total reading i k)
dup_fd-leak id fd i k p pipe live at there full room =
    let more = record pipe { read_open = saturating_inc pipe.read_open } in
    let k1 = put_pipe k i (some more) in
    rw (dup_fd-full id fd i k p pipe live at there full) (
      refl,
      omega (
        arith,
        ap (λ t. opens_of reading (held t i)) (put_process-pipe_table id p k1),
        ap (opens_of reading) (held_put k i (some more) (pipe_at-lt k i there)),
        ap (opens_of reading) there,
      ),
      omega
          (arith, kernel_total-put reading i id p k1 (find_process-same id k k1 refl refl ∙ live)),
    )
