-- ===== src/Syscall/Tests.antt =====
-- System calls of process 1 on a machine of three pages: code, stack and a page below the stack.
use spikeling_os.Base.{
  ℕ, ◌≤◌, ◌≡◌, refl, [], ◌∷◌, none, some, true, false, arith, length, replicate, ◌==◌,
  if◌then◌else◌, length-replicate,
}
use spikeling_os.Pipe.{Pipe, new_pipe, copy_out, read_pipe}
use spikeling_os.Process.{
  pipe_read, pipe_write, Process, Kernel, page_size, locate, at_place, put_place, find_process,
  put_process, with_process_mut,
}
use spikeling_os.Process.Children.{child_slot, start_child}
use spikeling_os.Process.Fds.{lookup_fd, pipe_read_at, read_fd}
use spikeling_os.Process.Space.Tests.{flat}
use spikeling_os.Process.Machine.{main_stack, Machine, run_forked_child, wait_for, wait_for_child}
use spikeling_os.Process.Machine.Context.{SameContext, RunsOnOwnTable}
use spikeling_os.Syscall.{
  SyscallRegs, max_fd_io_len, Outcome, resumes, leaves, enters, halts, write_byte, read_user,
  write_user,
}
use spikeling_os.Syscall.Files.{read_call, deliver}
use spikeling_os.Syscall.Processes.{page_fault_handler, to_kernel, wait_call}
use spikeling_os.Syscall.Dispatch.{syscall_dispatch}
use spikeling_os.Syscall.Arms.{OnlyRax}
use spikeling_os.Syscall.Frame.{syscall_dispatch-SameContext, page_fault_handler-exit}
use spikeling_os.Syscall.Buffers.{read_call-bytes}

-- A pipe that holds two bytes, and a child of process 1 in the first slot.
abbrev parent : Process
parent = record {
  label = [];
  pml4_frame = 0x1000;
  code_frame = 0x2000;
  stack_frame = 0x3000;
  heap_frames = 0x4000 ∷ 0x5000 ∷ 0x6000 ∷ 0x7000 ∷ [];
  heap_used = 0;
  fds = some (pipe_read 0) ∷ some (pipe_write 0) ∷ none ∷ none ∷ [];
  extra_frames = [];
  parent_pid = none;
  pending_resume = none;
}

abbrev child : Process
child = record parent { pml4_frame = 0x8000; parent_pid = some 1; pending_resume = some (7, 8) }

abbrev pipe : Pipe
pipe = record new_pipe {
  buffer = 104 ∷ 105 ∷ new_pipe.buffer;
  len = 2;
  read_open = 2;
  write_open = 2;
}

abbrev tables : Kernel
tables = record {
  statics = some parent ∷ none ∷ none ∷ none ∷ none ∷ none ∷ none ∷ [];
  process_table = some child ∷ none ∷ none ∷ none ∷ [];
  pipe_table = some pipe ∷ none ∷ none ∷ none ∷ [];
  disk = record {
    sectors = λ a. replicate 512 0;
    read_error = λ a. false;
    write_error = λ a. false;
  };
}

-- Page 2 is the stack, page 1 below it; both in frame 0x3000.
abbrev before : Machine flat
before = record {
  kernel = tables;
  space = record {
    allocator = record { memory_regions = []; next = 0 };
    pages = λ f. replicate page_size 0;
    tables = λ f. [];
    below = λ p. if p == 1 then some 0x3000 else if p == 2 then some 0x3000 else none;
    cr3 = 0x1000;
  };
  installed = true;
  active = 1;
  in_child = false;
  kernel_pml4 = 0;
  syscall_stack = main_stack;
  sent = [];
}

abbrev regs_for : ℕ → ℕ → ℕ → ℕ → SyscallRegs
regs_for number a b c = record {
  r15 = 0;
  r14 = 0;
  r13 = 0;
  r12 = 0;
  r11 = 0;
  r10 = 0;
  r9 = 0;
  r8 = 0;
  rbp = 0;
  rdi = a;
  rsi = b;
  rdx = c;
  rcx = 0;
  rbx = 0;
  rax = number;
  rip = 0;
  cs = 0x33;
  rflags = 0x202;
  rsp = 0x2ff0;
  ss = 0x2b;
}

-- A child that only makes its exit call.
abbrev quits : ℕ → ℕ → Machine flat → Machine flat
quits rip rsp m = record m { space = record m.space { cr3 = m.kernel_pml4 }; active = 0 }

abbrev outcome : SyscallRegs → Outcome flat
outcome regs = syscall_dispatch flat quits regs before

-- Two bytes of the pipe, asked for with room for ten, across the end of page 1.
abbrev reads_ten : SyscallRegs
reads_ten = regs_for 4 0 0x1fff 10

abbrev after : Outcome flat → Machine flat
after (resumes regs m) = m
after (leaves nested m) = m
after (enters rip rsp m) = m
after halts = before

reads : outcome reads_ten ≡ resumes (record reads_ten { rax = 2 }) (after (outcome reads_ten))
unfolding syscall_dispatch read_call deliver write_user write_byte read_fd lookup_fd pipe_read_at
    read_pipe copy_out find_process locate at_place
reads = refl

pipe_bytes : (read_fd 1 0 10 tables).0 ≡ some (104 ∷ 105 ∷ [])
unfolding read_fd lookup_fd pipe_read_at read_pipe copy_out find_process locate at_place new_pipe
pipe_bytes = refl

read_call-bytes_example :
    ((record reads_ten { rax = 2 }).rax ≡ length {A = ℕ} (104 ∷ 105 ∷ []))
    × (2 ≤ reads_ten.rdx)
    × (2 ≤ max_fd_io_len)
    × ((after (outcome reads_ten)).kernel ≡ (read_fd 1 0 10 tables).1)
    × (read_user flat 0x1fff 0 2 (after (outcome reads_ten)).space ≡ some (104 ∷ 105 ∷ []))
read_call-bytes_example =
    read_call-bytes flat quits reads_ten (record reads_ten { rax = 2 }) before
      (after (outcome reads_ten)) (104 ∷ 105 ∷ []) (λ f. length-replicate {A = ℕ} page_size 0)
      (λ e. omega arith) refl pipe_bytes reads

-- Process 1 waits for its child, which exits.
abbrev waiting : SyscallRegs
waiting = regs_for 8 10 0 0

waits : outcome waiting ≡ resumes (record waiting { rax = 10 }) (after (outcome waiting))
unfolding syscall_dispatch wait_call wait_for_child child_slot find_process locate at_place wait_for
    run_forked_child start_child with_process_mut put_process put_place
waits = refl

before_own : RunsOnOwnTable flat before
unfolding find_process locate at_place
before_own = record { own = λ p e. ground arith }

syscall_dispatch-SameContext_example :
    OnlyRax waiting (record waiting { rax = 10 })
    × SameContext flat before (after (outcome waiting))
syscall_dispatch-SameContext_example =
    syscall_dispatch-SameContext flat quits waiting (record waiting { rax = 10 }) before
      (after (outcome waiting)) before_own waits

-- The read after the wait: the pipe still holds its two bytes.
abbrev later : Machine flat
later = after (outcome waiting)

page_fault_handler-exit_example :
    (page_fault_handler flat true before ≡ outcome (record waiting { rax = 1 }))
    × (page_fault_handler flat true before ≡ leaves false (to_kernel flat before))
    × (page_fault_handler flat false before ≡ halts)
    × (page_fault_handler flat false (record before { active = 0 }) ≡ halts)
page_fault_handler-exit_example =
    page_fault_handler-exit flat quits waiting before false (λ e. omega arith)
