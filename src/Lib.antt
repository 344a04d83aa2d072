-- ===== src/Lib.antt =====
-- Spikeling OS: a kernel for x86_64 in Rust (kernel/src/), whose task scheduler is a bank of coupled
-- integrate-and-fire neurons and whose user processes have descriptors, pipes, files and a heap. This
-- library models the parts of the kernel that decide something by themselves, and leaves the devices,
-- the assembly and the printing aside.
--
-- The parts and their files:
--   Base       lists, options, search, results and little-endian words that the parts share.
--   Pipe       process.rs, struct Pipe, pipe_read() and pipe_write(): `read_pipe` and `write_pipe` are
--              what these do once the descriptor has been resolved. Pipe.Queue reads the ring buffer
--              as a list of bytes, Pipe.Fifo follows sequences of transfers.
--   Ata        ata.rs, read_sector() and write_sector() over a drive that is a parameter: a store of
--              sectors, and the addresses at which it raises its error bit. Ata.Persist is save_weights()
--              and load_weights().
--   Fs         fs.rs. Fs.Table is the sector of a directory (load_dir_at(), save_dir_at()), Fs.Walk the
--              resolution of paths, Fs.Pool the search for free sectors, Fs.Ops make_dir(),
--              write_file(), delete_file() and remove_dir(), Fs.Read read_file() and list(). An
--              operation takes the disk and returns its result with the disk after it, also on an
--              error; Fs.Io is the do notation for this. Fs.Laws has the theorems.
--   Process    process.rs. The state `Kernel` is PIPE_TABLE, PROCESS_TABLE, the statics of the ids 1 to
--              7, and the disk. Process.Fds is open_file(), read_fd() and write_fd(), Process.Ends
--              pipe_create(), close_fd(), dup_fd() and dup2_fd(), Process.Heap sbrk(), Process.Children
--              what fork(), wait_for_child(), kill() and exec_process() do to the tables. Process.Space
--              is create_process_from_image() and fork_build_child(), over the page tables of the x86_64
--              crate as a parameter `Paging`; Process.Image the checks of
--              create_process_from_elf(); Process.Machine joins tables, memory and the
--              active process. Process.Refs counts descriptors against the open ends that the pipes
--              count, Process.Files follows a file's bytes through its cursor and to the disk.
--   Syscall    usertest.rs, syscall_dispatch(): Syscall.Files and Syscall.Processes have an arm each for
--              a definition, Syscall.Dispatch the match. An outcome goes back to the caller, to the
--              kernel code that had entered ring 3, into a new program, or halts. Syscall.Arms proves
--              once of all arms what Syscall.Reach and Syscall.Frame use. page_fault_handler() of
--              interrupts.rs is in Syscall.Processes.
--   Memory     memory.rs, BootInfoFrameAllocator over the bootloader's memory map.
--   Elf        elf.rs, parse(), with one constructor per message.
--   Ternary    ternary.rs, pack_ternary() and unpack_ternary(); Ternary.Weights encode_weight() and
--              decode_weight() over a parameter `WeightFloats` for f32 and libm.
--   Rtc        rtc.rs, now() over a clock that is a function of time and register.
--   Scheduler  scheduler.rs, TopologicalScheduler, over a parameter `Floats` that stands for f32.
--              Scheduler.Charge describes what a round adds to a slot, Scheduler.Step what is selected.
--   Tasks      tasks.rs, spawn(), kill(), reap_zombies() and timer_tick_switch().
--   Mouse      mouse.rs, on_interrupt(), handle_draw_mode() and the switches of the drawing mode. A
--              byte is an argument and what is drawn a result; the size of the screen is a parameter.
--   Network    network.rs, GenericNetwork: Network.Tick is tick(), Network.Learning apply_stdp(), the
--              evidence and the gates, Network.Names what is done by name. f32 and libm are a parameter
--              `NetFloats`. Network.Saved is neurons.rs.
--   Console    console.rs, Console: its cursor, write_char() and backspace(), and Console.Draw
--              draw_line() and draw_rect(). The font of the noto_sans_mono_bitmap crate is a parameter.
--   Shell      shell.rs, the current directory: resolve_arg(), set_cwd() and the command cd.
-- The files meet as the code does: a system call calls Process, a process's descriptors call
-- Pipe and Fs, Fs calls Ata, building a process calls Memory, and the timer's tick calls Scheduler.
--
-- Numbers are naturals. A cast to a narrower word is written as a remainder (`% 2 ^ 16`), and
-- checked_add() and checked_mul() as options below 2 ^ 64. A lock that is taken and released within one
-- call is not modelled: an operation is one step.
--
-- Fuel: now() waits and reads again for as long as the clock keeps changing; it is a function on fuel,
-- and on a clock that is not updating one unit is enough. Every other loop is structural recursion.
-- The recursion of collect_occupied_at() is on the depth that the code itself bounds by 32.
--
-- golden_period() is a function on seven units of fuel, and the search ends within them; gcd() has a unit
-- for each step that its second argument allows. draw_line() has a unit for each step in either direction
-- and one more, which is proved to be enough. Its coordinates are
-- signed in the code, and here naturals below 2 ^ 63. The console's sums of usize wrap at 2 ^ 64 as in a
-- release build; a debug build panics where they would.
-- The theorem on the console is for coordinates and a screen that are small enough for no sum to wrap:
-- past them the test of write_pixel() can be passed by an offset that is out of range.
--
-- A child that a wait runs in ring 3 is a parameter, a function of the machine. A user program's pointer
-- into the kernel's own memory is outside of the model: its pages are those of frames, and the tables
-- of processes and pipes are not in them. Text for the log of the serial port is left out.
--
-- Not modelled: the boot sequence, the set-up of interrupt and descriptor tables, the heap
-- allocator, devices (keyboard, speaker, PCI, network card), the other commands of the shell and its
-- line editor, of process.rs the mapping of segments in create_process_from_elf() and the self tests,
-- of network.rs run_dsl_line() and the reports, of tasks.rs
-- run_preemption_demo() and live_tasks(). The contents of a task's stack
-- and the context switch are assembly; a task is its saved stack pointer. A comparison of floats that
-- meets a NaN panics in the code; here a comparison is a Boolean. The sums of the mouse's position wrap
-- here, as in a release build.
pub mod Base
pub mod Pipe
pub mod Ata
pub mod Fs
pub mod Process
pub mod Elf
pub mod Ternary
pub mod Rtc
pub mod Scheduler
pub mod Mouse
pub mod Memory
pub mod Tasks
pub mod Syscall
pub mod Network
pub mod Console
pub mod Shell
