-- ===== src/Syscall.antt =====
-- kernel/src/usertest.rs: system calls. Here is what the entry point saves of the caller, and how a call
-- reaches the caller's memory: byte by byte, through the page tables in use. What is logged to the
-- serial port is left out, and so are the kernel's own pages, which no table of frames here holds.
pub mod Files
pub mod Processes
pub mod Dispatch
pub mod Arms
pub mod Reach
pub mod Frame
pub mod Buffers
mod Tests
use spikeling_os.Base.{
  ℕ, zero, suc, ◌+◌, ◌-◌, ◌%◌, ◌^◌, ltb, List, [], ◌∷◌, ◌++◌, Option, none, some, Bool,
  if◌then◌else◌, get_elem?, set, u64_limit, ◌==◌,
}
use spikeling_os.Process.{page_size}
use spikeling_os.Process.Space.{Paging, Space}
use spikeling_os.Process.Machine.{Machine}

pub record SyscallRegs : Type 0 where
  pub r15 : ℕ
  pub r14 : ℕ
  pub r13 : ℕ
  pub r12 : ℕ
  pub r11 : ℕ
  pub r10 : ℕ
  pub r9 : ℕ
  pub r8 : ℕ
  pub rbp : ℕ
  pub rdi : ℕ
  pub rsi : ℕ
  pub rdx : ℕ
  pub rcx : ℕ
  pub rbx : ℕ
  pub rax : ℕ
  pub rip : ℕ
  pub cs : ℕ
  pub rflags : ℕ
  pub rsp : ℕ
  pub ss : ℕ

abbrev pub max_write_len : ℕ
max_write_len = 4096

abbrev pub max_path_len : ℕ
max_path_len = 64

abbrev pub max_fd_io_len : ℕ
max_fd_io_len = 4096

-- `u64::MAX`
abbrev pub u64_max : ℕ
u64_max = u64_limit - 1

-- A requested length, cut at a cap.
abbrev pub capped : ℕ → ℕ → ℕ
capped cap requested = if ltb cap requested then cap else requested

-- `ptr.wrapping_add(i)`
abbrev pub wrapping_add : ℕ → ℕ → ℕ
wrapping_add ptr i = (ptr + i) % 2 ^ 64

module _ (pg : Paging) where
  -- Where an entry into the kernel ends: in ring 3 behind the call, in the kernel code that had entered
  -- ring 3 (CHILD_KERNEL_RSP if `nested`, else KERNEL_RSP), in a new program, or in hlt_loop().
  pub data Outcome : Type 0 where
    resumes : SyscallRegs → Machine pg → Outcome
    leaves : (nested : Bool) → Machine pg → Outcome
    enters : (rip rsp : ℕ) → Machine pg → Outcome
    halts : Outcome

  -- The frame and the offset of an address.
  abbrev pub place_of : Space pg → ℕ → Option ℕ
  place_of s va = pg.translate (s.tables s.cr3) s.below va

  unfoldable pub read_byte : ℕ → Space pg → Option ℕ
  read_byte va s = elim (place_of s va) [
    | none ↦ none
    | some f ↦ get_elem? (s.pages f) (va % page_size)
  ]

  unfoldable pub write_byte : ℕ → ℕ → Space pg → Option (Space pg)
  write_byte va b s = elim (place_of s va) [
    | none ↦ none
    | some f ↦
        some (record s {
          pages = λ g. if g == f then set (s.pages f) (va % page_size) b else s.pages g;
        })
  ]

  -- `for i in 0..len`, from `i` on with `n` to go; `none` is a page fault in the kernel.
  unfoldable pub read_user : ℕ → ℕ → ℕ → Space pg → Option (List ℕ)
  read_user ptr i zero s = some []
  read_user ptr i (suc n) s =
      let rest = read_user ptr (i + 1) n s in
      elim (read_byte (wrapping_add ptr i) s) [
        | none ↦ none
        | some b ↦ elim rest [ none ↦ none | some bs ↦ some (b ∷ bs) ]
      ]

  unfoldable pub write_user : ℕ → ℕ → List ℕ → Space pg → Option (Space pg)
  write_user ptr i [] s = some s
  write_user ptr i (b ∷ bs) s = elim (write_byte (wrapping_add ptr i) b s) [
    | none ↦ none
    | some s' ↦ write_user ptr (i + 1) bs s'
  ]

  -- `regs.rax = v`, and back to the caller.
  abbrev pub answer : ℕ → SyscallRegs → Machine pg → Outcome
  answer v regs m = resumes (record regs { rax = v }) m

  -- A call that needs an active process, refused with `v` where there is none.
  abbrev pub for_process : ℕ → SyscallRegs → Machine pg → Outcome → Outcome
  for_process v regs m call = if m.active == 0 then answer v regs m else call
