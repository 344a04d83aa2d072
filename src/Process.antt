-- ===== src/Process.antt =====
-- kernel/src/process.rs: the state that a process's system calls change, and with_process_mut(), by
-- which each of them reaches the process that it is about.
-- Frames are physical addresses, text is bytes. The statics PROCESS_A, PROCESS_B, LOADED_PROCESS,
-- FDTEST_PROCESS, FORK_TEST_PROCESS, SIGSEGV_TEST_PROCESS and SIGKILL_TEST_PROCESS stand in one
-- list, in the order of their ids 1 to 7.
pub mod Fds
pub mod Ends
pub mod Children
pub mod Space
pub mod Machine
pub mod Image
pub mod Refs
pub mod Heap
pub mod Files
mod Tests
use spikeling_os.Base.{
  held, ℕ, ◌-◌, ◌+◌, ◌*◌, ◌&&◌, ltb, leb, List, Option, none, some, Bool, if◌then◌else◌, get_elem?,
  set,
}
use spikeling_os.Ata.{Disk}
use spikeling_os.Pipe.{Pipe}

abbrev pub page_size : ℕ
page_size = 4096

abbrev pub max_open_files : ℕ
max_open_files = 4

abbrev pub max_processes : ℕ
max_processes = 4

abbrev pub pid_table_base : ℕ
pid_table_base = 10

abbrev pub num_statics : ℕ
num_statics = 7

pub record OpenFile : Type 0 where
  pub path : List ℕ
  pub buffer : List ℕ
  pub pos : ℕ
  pub dirty : Bool

-- A pipe end is an index into the pipe table.
pub data FdEntry : Type 0 where
  file : OpenFile → FdEntry
  pipe_read : ℕ → FdEntry
  pipe_write : ℕ → FdEntry

pub record Process : Type 0 where
  pub label : List ℕ
  pub pml4_frame : ℕ
  pub code_frame : ℕ
  pub stack_frame : ℕ
  pub heap_frames : List ℕ
  pub heap_used : ℕ
  pub fds : List (Option FdEntry)
  pub extra_frames : List ℕ
  pub parent_pid : Option ℕ
  pub pending_resume : Option (ℕ × ℕ)

pub record Kernel : Type 0 where
  pub statics : List (Option Process)
  pub process_table : List (Option Process)
  pub pipe_table : List (Option Pipe)
  pub disk : Disk

pub data Place : Type 0 where
  static_slot : ℕ → Place
  table_slot : ℕ → Place

-- The arms of `match id`.
unfoldable pub locate : ℕ → Option Place
locate id =
    if leb 1 id && leb id num_statics
    then some (static_slot (id - 1))
    else if leb pid_table_base id && ltb (id - pid_table_base) max_processes
    then some (table_slot (id - pid_table_base))
    else none

unfoldable pub at_place : Place → Kernel → Option Process
at_place (static_slot i) k = held k.statics i
at_place (table_slot i) k = held k.process_table i

unfoldable pub put_place : Place → Process → Kernel → Kernel
put_place (static_slot i) p k = record k { statics = set k.statics i (some p) }
put_place (table_slot i) p k = record k { process_table = set k.process_table i (some p) }

unfoldable pub find_process : ℕ → Kernel → Option Process
find_process id k = elim (locate id) [ none ↦ none | some place ↦ at_place place k ]

unfoldable pub put_process : ℕ → Process → Kernel → Kernel
put_process id p k = elim (locate id) [ none ↦ k | some place ↦ put_place place p k ]

-- `with_process_mut(id, f)?`: the answer of `f`, or `None` if no live process has the id.
unfoldable pub with_process_mut :
    {R : Type 0} → ℕ → (Process → Option R × Process) → Kernel → Option R × Kernel
with_process_mut id f k = elim (find_process id k) [
  | none ↦ (none, k)
  | some p ↦ let (r, p') = f p in (r, put_process id p' k)
]
