-- ===== src/Process/Tests/Leaks.antt =====
-- A path of kernel/src/process.rs that leaves a count too high.
use spikeling_os.Base.{◌+◌, ◌≡◌, refl, [], ◌∷◌, none, some, arith, position, is_none}
use spikeling_os.Pipe.{Pipe, new_pipe}
use spikeling_os.Process.{pipe_read, pipe_write, Process, Kernel, locate, at_place, find_process}
use spikeling_os.Process.Ends.{dup_fd}
use spikeling_os.Process.Refs.Totals.{reading, kernel_total}
use spikeling_os.Process.Refs.Covers.{opens}
use spikeling_os.Process.Refs.Leaks.{dup_fd-leak}
use spikeling_os.Process.Tests.{idle, machine}

-- All four descriptors name a pipe.
abbrev busy : Process
busy = record idle {
  fds = some (pipe_read 0) ∷ some (pipe_write 0) ∷ some (pipe_read 0) ∷ some (pipe_write 0) ∷ [];
}

abbrev shared : Pipe
shared = record new_pipe { read_open = 2; write_open = 2 }

abbrev crowded : Kernel
crowded = machine busy (some shared ∷ none ∷ none ∷ none ∷ [])

crowded_live : find_process 1 crowded ≡ some busy
unfolding find_process locate at_place
crowded_live = refl

crowded_full : position is_none busy.fds ≡ none
unfolding position
crowded_full = refl

dup_fd-leak_example :
    ((dup_fd 1 0 crowded).0 ≡ none)
    × (opens reading (dup_fd 1 0 crowded).1 0 ≡ opens reading crowded 0 + 1)
    × (kernel_total reading 0 (dup_fd 1 0 crowded).1 ≡ kernel_total reading 0 crowded)
dup_fd-leak_example =
    dup_fd-leak 1 0 0 crowded busy shared crowded_live refl refl crowded_full (omega arith)
