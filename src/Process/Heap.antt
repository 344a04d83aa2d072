-- ===== src/Process/Heap.antt =====
-- kernel/src/process.rs, sbrk(): the bump allocator of a process's private heap.
pub mod Bounds
use spikeling_os.Base.{checked_add, ℕ, ◌+◌, ◌*◌, ◌^◌, ltb, Option, none, some, if◌then◌else◌}
use spikeling_os.Process.{Process, Kernel, page_size, with_process_mut}

abbrev pub heap_start : ℕ
heap_start = 0x5555_7000_0000

abbrev pub heap_page_count : ℕ
heap_page_count = 4

abbrev pub heap_size : ℕ
heap_size = heap_page_count * page_size

-- The closure that sbrk() runs on the process.
unfoldable pub bump : ℕ → Process → Option ℕ × Process
bump size p = elim (checked_add p.heap_used size) [
  | none ↦ (none, p)
  | some new_used ↦
      if ltb heap_size new_used
      then (none, p)
      else (some (heap_start + p.heap_used), record p { heap_used = new_used })
]

unfoldable pub sbrk : ℕ → ℕ → Kernel → Option ℕ × Kernel
sbrk id size k = with_process_mut id (bump size) k
