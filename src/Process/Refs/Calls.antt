-- ===== src/Process/Refs/Calls.antt =====
-- The system calls of kernel/src/process.rs on descriptors, on the heap and on processes, as the steps
-- that a kernel's state takes, in any order and from any process.
use spikeling_os.Base.{ℕ, ◌≤◌, ◌≡◌, refl, ap, length, List, some, arith, Option-cases, inl, inr}
use spikeling_os.Pipe.{Pipe, read_pipe, write_pipe}
use spikeling_os.Process.{FdEntry, pipe_read, pipe_write, Process, Kernel, find_process}
use spikeling_os.Process.Fds.{
  open_file, lookup_fd, pipe_at, put_pipe, pipe_read_at, pipe_write_at, read_fd, write_fd,
}
use spikeling_os.Process.Ends.{pipe_create, close_fd, dup_fd, dup2_fd}
use spikeling_os.Process.Heap.{bump, sbrk}
use spikeling_os.Process.Refs.Totals.{End, reading, writing, names, fd_total}
use spikeling_os.Process.Refs.Places.{lookup_fd-le-total}
use spikeling_os.Process.Refs.Covers.{count_of, no_extra, IsCovered, Spends}
use spikeling_os.Process.Refs.Steps.{with_process_mut-Covers}
use spikeling_os.Process.Refs.Files.{open_file-IsCovered, read_fd-IsCovered, write_fd-IsCovered}
use spikeling_os.Process.Refs.Sharing.{close_fd-IsCovered, dup_fd-IsCovered, dup2_fd-IsCovered}
use spikeling_os.Process.Refs.Create.{pipe_create-IsCovered}
use spikeling_os.Process.Children.{fork_into, reap, kill, start_child, exec_frame}
use spikeling_os.Process.Refs.Children.{
  adopt_child-IsCovered, reap-IsCovered, kill-IsCovered, start_child-IsCovered,
  exec_frame-IsCovered,
}

-- A system call of the process whose id stands first. A fork comes with the child that was built for
-- it. A wait is three things: the child starts, its own calls follow, and its slot is reaped.
pub data Call : Type 0 where
  open_call : ℕ → List ℕ → Call
  read_call : ℕ → ℕ → ℕ → Call
  write_call : ℕ → ℕ → List ℕ → Call
  pipe_call : ℕ → Call
  close_call : ℕ → ℕ → Call
  dup_call : ℕ → ℕ → Call
  dup2_call : ℕ → ℕ → ℕ → Call
  sbrk_call : ℕ → ℕ → Call
  fork_call : ℕ → ℕ × ℕ → Process → Call
  start_call : ℕ → Call
  reap_call : ℕ → Call
  kill_call : ℕ → ℕ → Call
  exec_call : ℕ → Call

unfoldable pub run : Call → Kernel → Kernel
run (open_call id path) k = (open_file id path k).1
run (read_call id fd len) k = (read_fd id fd len k).1
run (write_call id fd bytes) k = (write_fd id fd bytes k).1
run (pipe_call id) k = (pipe_create id k).1
run (close_call id fd) k = (close_fd id fd k).1
run (dup_call id fd) k = (dup_fd id fd k).1
run (dup2_call id fd newfd) k = (dup2_fd id fd newfd k).1
run (sbrk_call id size) k = (sbrk id size k).1
run (fork_call id resume child) k = (fork_into id resume child k).1
run (start_call pid) k = (start_child pid k).1
run (reap_call i) k = reap i k
run (kill_call id pid) k = (kill id pid k).1
run (exec_call id) k = (exec_frame id k).1

-- The states that some sequence of calls leads to.
pub data Reaches (k : Kernel) : Kernel → Type 0 where
  here : Reaches k k
  call : {k1 : Kernel} → Reaches k k1 → (c : Call) → Reaches k (run c k1)

fds-bump : (size : ℕ) (p : Process) → (bump size p).1.fds ≡ p.fds
unfolding bump
fds-bump size p = ground arith

bump-Spends : (size : ℕ) (p : Process) → Spends no_extra p (bump size p).1
bump-Spends size p =
    (ap length (fds-bump size p), λ end idx. omega (arith, ap (fd_total end idx) (fds-bump size p)))

sbrk-IsCovered : (id size : ℕ) (k : Kernel) → IsCovered k → IsCovered (sbrk id size k).1
unfolding sbrk
sbrk-IsCovered id size k c = with_process_mut-Covers no_extra id (bump size) k (bump-Spends size) c

fork_into-IsCovered :
    (id : ℕ) (resume : ℕ × ℕ) (child : Process) (k : Kernel)
    → IsCovered k
    → IsCovered (fork_into id resume child k).1
unfolding fork_into
fork_into-IsCovered id resume child k c = elim (Option-cases (find_process id k)) [
  | inl q ↦ rw (q, fork_into) c
  | inr (parent, q) ↦ rw (q, fork_into) (adopt_child-IsCovered id resume parent child k q c)
]

run-IsCovered : (c : Call) (k : Kernel) → IsCovered k → IsCovered (run c k)
unfolding run
run-IsCovered (open_call id path) k c = open_file-IsCovered id path k c
run-IsCovered (read_call id fd len) k c = read_fd-IsCovered id fd len k c
run-IsCovered (write_call id fd bytes) k c = write_fd-IsCovered id fd bytes k c
run-IsCovered (pipe_call id) k c = pipe_create-IsCovered id k c
run-IsCovered (close_call id fd) k c = close_fd-IsCovered id fd k c
run-IsCovered (dup_call id fd) k c = dup_fd-IsCovered id fd k c
run-IsCovered (dup2_call id fd newfd) k c = dup2_fd-IsCovered id fd newfd k c
run-IsCovered (sbrk_call id size) k c = sbrk-IsCovered id size k c
run-IsCovered (fork_call id resume child) k c = fork_into-IsCovered id resume child k c
run-IsCovered (start_call pid) k c = start_child-IsCovered pid k c
run-IsCovered (reap_call i) k c = reap-IsCovered i k c
run-IsCovered (kill_call id pid) k c = kill-IsCovered id pid k c
run-IsCovered (exec_call id) k c = exec_frame-IsCovered id k c

-- No sequence of system calls, of any processes in any order, forks and exits of children among them,
-- brings a pipe's count of open read or
-- write ends below the number of descriptors of live processes that name that end.
pub Reaches-IsCovered : {k k' : Kernel} → IsCovered k → Reaches k k' → IsCovered k'
Reaches-IsCovered c here = c
Reaches-IsCovered c (call r step) = run-IsCovered step _ (Reaches-IsCovered c r)

-- The pipe that an open descriptor names.
live_pipe :
    (end : End) (idx id fd : ℕ) (k : Kernel) (e : FdEntry)
    → IsCovered k
    → lookup_fd id fd k ≡ some e
    → names end idx e ≡ 1
    → (pipe : Pipe) × (pipe_at k idx ≡ some pipe) × (1 ≤ count_of end pipe)
live_pipe end idx id fd k e c h one = elim (Option-cases (pipe_at k idx)) [
  | inl q ↦ absurd (ground (arith, lookup_fd-le-total end idx id fd k h, c.covered end idx))
  | inr (pipe, q) ↦
      (pipe, q, ground (arith, lookup_fd-le-total end idx id fd k h, c.covered end idx))
]

-- In every state that system calls lead to from a state in which the counts cover the descriptors,
-- a read of a pipe's read end answers with bytes, never with `None`: the descriptor's slot of the
-- pipe table is in use, and its count of read ends is at least 1.
pub read_fd-live :
    (k k' : Kernel) (id fd idx len : ℕ)
    → IsCovered k
    → Reaches k k'
    → lookup_fd id fd k' ≡ some (pipe_read idx)
    → (pipe : Pipe) × (pipe_at k' idx ≡ some pipe)
      × (1 ≤ pipe.read_open)
      × (read_fd id fd len k'
          ≡ (some (read_pipe pipe len).0, put_pipe k' idx (some (read_pipe pipe len).1)))
unfolding read_fd pipe_read_at
read_fd-live k k' id fd idx len c r h =
    let (pipe, at, live) =
      live_pipe reading idx id fd k' (pipe_read idx) (Reaches-IsCovered c r) h (ground arith) in
    (pipe, at, live, rw (h, read_fd, at, pipe_read_at) refl)

-- In every state that system calls lead to from a state in which the counts cover the descriptors,
-- a write to a pipe's write end answers with the number of bytes it took, never with `None`: the
-- descriptor's slot of the pipe table is in use, and its count of write ends is at least 1.
pub write_fd-live :
    (k k' : Kernel) (id fd idx : ℕ) (bytes : List ℕ)
    → IsCovered k
    → Reaches k k'
    → lookup_fd id fd k' ≡ some (pipe_write idx)
    → (pipe : Pipe) × (pipe_at k' idx ≡ some pipe)
      × (1 ≤ pipe.write_open)
      × (write_fd id fd bytes k'
          ≡ (some (write_pipe pipe bytes).0, put_pipe k' idx (some (write_pipe pipe bytes).1)))
unfolding write_fd pipe_write_at
write_fd-live k k' id fd idx bytes c r h =
    let (pipe, at, live) =
      live_pipe writing idx id fd k' (pipe_write idx) (Reaches-IsCovered c r) h (ground arith) in
    (pipe, at, live, rw (h, write_fd, at, pipe_write_at) refl)
