-- ===== src/Memory/Tests.antt =====
-- Frames of a small memory map, with a region in use between two usable ones.
use spikeling_os.Base.{◌≡◌, ◌<◌, refl, List, [], ◌∷◌, true, false, arith}
use spikeling_os.Memory.{
  Region, steps, align_all, usable_frames, IsMap, BootInfoFrameAllocator, allocate_frame,
}
use spikeling_os.Memory.Frames.{allocate_many, allocate_frame-distinct}

abbrev regions : List Region
regions =
    record { start = 0x1000; end = 0x2800; usable = true }
    ∷ record { start = 0x3000; end = 0x5000; usable = false }
    ∷ record { start = 0x5000; end = 0x6000; usable = true }
    ∷ []

regions-IsMap : IsMap regions
regions-IsMap = (
  omega arith,
  refl,
  omega arith,
  (omega arith, refl, omega arith, (omega arith, refl, omega arith, tt)),
)

-- A region that ends inside a page gives that page out too.
regions_frames : usable_frames regions ≡ 0x1000 ∷ 0x2000 ∷ 0x5000 ∷ []
unfolding usable_frames steps align_all
regions_frames = refl

abbrev second : BootInfoFrameAllocator
second = record { memory_regions = regions; next = 1 }

allocate_frame-distinct_example : 0x2000 < 0x5000
unfolding allocate_frame allocate_many usable_frames steps align_all
allocate_frame-distinct_example =
    allocate_frame-distinct second 0 0x2000 0x5000 regions-IsMap refl refl
