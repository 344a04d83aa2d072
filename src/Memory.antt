-- ===== src/Memory.antt =====
-- kernel/src/memory.rs: the allocator of physical frames over the memory map that the bootloader
-- reports. A frame is the address at which it starts. The map is a parameter: what the code relies on
-- of it, regions in ascending order that do not overlap and start at a page, is `IsMap`.
pub mod Frames
mod Tests
use spikeling_os.Base.{
  ℕ, zero, suc, ◌+◌, ◌-◌, ◌*◌, ◌/◌, ◌≤◌, ◌≡◌, ◌%◌, List, [], ◌∷◌, ◌++◌, Option, Bool, true, false,
  get_elem?, if◌then◌else◌,
}

abbrev pub frame_size : ℕ
frame_size = 4096

-- A MemoryRegion of the bootloader, with `kind == Usable` as a Boolean.
pub record Region : Type 0 where
  pub start : ℕ
  pub end : ℕ
  pub usable : Bool

-- `(start..end).step_by(4096)`, with `n` steps to go.
unfoldable pub steps : ℕ → ℕ → List ℕ
steps start zero = []
steps start (suc n) = start ∷ steps (start + frame_size) n

-- `PhysFrame::containing_address`
abbrev pub containing : ℕ → ℕ
containing addr = (addr / frame_size) * frame_size

abbrev pub step_count : Region → ℕ
step_count r = ((r.end - r.start) + (frame_size - 1)) / frame_size

unfoldable pub align_all : List ℕ → List ℕ
align_all [] = []
align_all (a ∷ rest) = containing a ∷ align_all rest

unfoldable pub usable_frames : List Region → List ℕ
unfolding steps align_all
usable_frames [] = []
usable_frames (r ∷ rs) =
    let rest = usable_frames rs in
    if r.usable then align_all (steps r.start (step_count r)) ++ rest else rest

pub record BootInfoFrameAllocator : Type 0 where
  pub memory_regions : List Region
  pub next : ℕ

-- `usable_frames().nth(self.next)`; the counter goes up also when there is no frame left.
unfoldable pub allocate_frame : BootInfoFrameAllocator → Option ℕ × BootInfoFrameAllocator
allocate_frame a =
    (get_elem? (usable_frames a.memory_regions) a.next, record a { next = a.next + 1 })

-- Regions start at pages, one after the other.
abbrev pub IsMapFrom : ℕ → List Region → Type 0
IsMapFrom low [] = Unit {0}
IsMapFrom low (r ∷ rs) =
    (low ≤ r.start) × (r.start % frame_size ≡ 0) × (r.start ≤ r.end) × IsMapFrom r.end rs

abbrev pub IsMap : List Region → Type 0
IsMap rs = IsMapFrom 0 rs
