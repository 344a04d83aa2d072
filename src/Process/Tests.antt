-- ===== src/Process/Tests.antt =====
-- System calls of kernel/src/process.rs on a small machine: process 1 with four free descriptors.
mod Files
mod Heap
mod Leaks
use spikeling_os.Base.{
  ℕ, ◌+◌, ◌-◌, ◌^◌, ◌≤◌, ◌<◌, ◌≡◌, ◌↔◌, ◌&&◌, leb, ltb, max, if◌then◌else◌, refl, List, [], ◌∷◌,
  ◌++◌, Option, none, some, true, false, arith, length, get_or, replicate, position, is_none,
}
use spikeling_os.Base.Result.{ok}
use spikeling_os.Ata.{Disk, IsHealthy, read_sector, write_sector}
use spikeling_os.Pipe.{Pipe, new_pipe, read_pipe, write_pipe}
use spikeling_os.Process.{
  OpenFile, FdEntry, file, pipe_read, pipe_write, Process, Kernel, locate, at_place, put_place,
  find_process, put_process, with_process_mut,
}
use spikeling_os.Process.Fds.{
  entry_of, pipe_at, put_pipe, install, lookup_fd, open_file, read_fd, write_fd, read_open_file,
  write_open_file,
}
use spikeling_os.Process.Ends.{
  u32_max, free_slots, install_pipe, connect, pipe_create, close_fd, dup_fd,
}
use spikeling_os.Process.Heap.{heap_start, heap_size, sbrk}
use spikeling_os.Process.Heap.Bounds.{IsTiled, sbrk_all, sbrk-none, sbrk_all-IsTiled}
use spikeling_os.Process.Files.Cursor.{write_open_file-bytes}
use spikeling_os.Process.Files.Persist.{close_fd-open_file}
use spikeling_os.Process.Refs.Totals.{End, reading, kernel_total, IsShaped}
use spikeling_os.Process.Refs.Covers.{opens, IsCovered}
use spikeling_os.Process.Refs.Calls.{
  Call, pipe_call, dup_call, close_call, run, Reaches, here, call, Reaches-IsCovered, read_fd-live,
  write_fd-live,
}
use spikeling_os.Process.Refs.Leaks.{dup_fd-leak}

abbrev pub blank : Disk
blank = record { sectors = λ a. replicate 512 0; read_error = λ a. false; write_error = λ a. false }

abbrev pub idle : Process
idle = record {
  label = [];
  pml4_frame = 1;
  code_frame = 2;
  stack_frame = 3;
  heap_frames = 4 ∷ 5 ∷ 6 ∷ 7 ∷ [];
  heap_used = 0;
  fds = none ∷ none ∷ none ∷ none ∷ [];
  extra_frames = [];
  parent_pid = none;
  pending_resume = none;
}

abbrev pub machine : Process → List (Option Pipe) → Kernel
machine p pipes = record {
  statics = some p ∷ none ∷ none ∷ none ∷ none ∷ none ∷ none ∷ [];
  process_table = none ∷ none ∷ none ∷ none ∷ [];
  pipe_table = pipes;
  disk = blank;
}

abbrev booted : Kernel
booted = machine idle (none ∷ none ∷ none ∷ none ∷ [])

booted-IsCovered : IsCovered booted
booted-IsCovered = record {
  shaped = record {
    statics_len = refl;
    table_len = refl;
    statics_fds = (refl, tt);
    table_fds = tt;
  };
  covered = λ end idx. omega arith;
}

-- A pipe is made, its read end is copied, and the first copy is closed.
abbrev after : Kernel
after = run (close_call 1 0) (run (dup_call 1 0) (run (pipe_call 1) booted))

after-Reaches : Reaches booted after
after-Reaches = call (call (call here (pipe_call 1)) (dup_call 1 0)) (close_call 1 0)

Reaches-IsCovered_example : IsCovered after
Reaches-IsCovered_example = Reaches-IsCovered booted-IsCovered after-Reaches

abbrev piped : Kernel
piped = run (pipe_call 1) booted

piped-Reaches : Reaches booted piped
piped-Reaches = call here (pipe_call 1)

piped_read : lookup_fd 1 0 piped ≡ some (pipe_read 0)
unfolding run pipe_create position connect install_pipe free_slots find_process put_process locate
    at_place put_place lookup_fd
piped_read = refl

piped_write : lookup_fd 1 1 piped ≡ some (pipe_write 0)
unfolding run pipe_create position connect install_pipe free_slots find_process put_process locate
    at_place put_place lookup_fd
piped_write = refl

read_fd-live_example :
    (pipe : Pipe) × (pipe_at piped 0 ≡ some pipe)
    × (1 ≤ pipe.read_open)
    × (read_fd 1 0 5 piped
        ≡ (some (read_pipe pipe 5).0, put_pipe piped 0 (some (read_pipe pipe 5).1)))
read_fd-live_example = read_fd-live booted piped 1 0 0 5 booted-IsCovered piped-Reaches piped_read

abbrev word : List ℕ
word = 7 ∷ 8 ∷ []

write_fd-live_example :
    (pipe : Pipe) × (pipe_at piped 0 ≡ some pipe)
    × (1 ≤ pipe.write_open)
    × (write_fd 1 1 word piped
        ≡ (some (write_pipe pipe word).0, put_pipe piped 0 (some (write_pipe pipe word).1)))
write_fd-live_example =
    write_fd-live booted piped 1 1 0 word booted-IsCovered piped-Reaches piped_write
