-- ===== src/Process/Tests/Heap.antt =====
-- sbrk() of kernel/src/process.rs, on requests that fit and one that does not.
use spikeling_os.Base.{ℕ, ◌+◌, ◌≤◌, ◌<◌, ◌≡◌, ◌↔◌, refl, List, [], ◌∷◌, none, some, arith}
use spikeling_os.Process.{
  Process, Kernel, locate, at_place, put_place, find_process, put_process, with_process_mut,
}
use spikeling_os.Process.Heap.{heap_start, heap_size, bump, sbrk}
use spikeling_os.Process.Heap.Bounds.{IsTiled, sbrk_all, sbrk-none, sbrk_all-IsTiled}
use spikeling_os.Process.Tests.{idle, machine}

abbrev booted : Kernel
booted = machine idle (none ∷ none ∷ none ∷ none ∷ [])

booted_live : find_process 1 booted ≡ some idle
unfolding find_process locate at_place
booted_live = refl

-- The second request is too large, and the third fills the heap.
abbrev requests : List ℕ
requests = 100 ∷ 20000 ∷ 16284 ∷ []

requests_given : (sbrk_all 1 requests booted).0 ≡ (heap_start, 100) ∷ (heap_start + 100, 16284) ∷ []
unfolding sbrk_all sbrk bump with_process_mut find_process put_process locate at_place put_place
requests_given = refl

sbrk_all-IsTiled_example :
    (p' : Process) × (find_process 1 (sbrk_all 1 requests booted).1 ≡ some p')
    × (p'.heap_used ≤ heap_size)
    × IsTiled (heap_start + 0) (heap_start + p'.heap_used) (sbrk_all 1 requests booted).0
sbrk_all-IsTiled_example = sbrk_all-IsTiled 1 requests booted idle booted_live (omega arith)

sbrk-none_example : ((sbrk 1 20000 booted).0 ≡ none) ↔ (heap_size < 0 + 20000)
sbrk-none_example = sbrk-none 1 20000 booted idle booted_live
