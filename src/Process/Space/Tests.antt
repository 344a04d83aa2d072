-- ===== src/Process/Space/Tests.antt =====
-- A machine with one region of memory, and page tables that are a function from pages to frames.
use spikeling_os.Base.{
  ℕ, ◌/◌, ◌≡◌, refl, List, [], ◌∷◌, Option, none, some, true, arith, replicate, ◌==◌, if◌then◌else◌,
  length-replicate, get_elem?,
}
use spikeling_os.Base.Result.{Result, ok}
use spikeling_os.Base.Stateful.{◌>>=◌}
use spikeling_os.Memory.{
  Region, steps, align_all, usable_frames, IsMap, BootInfoFrameAllocator, allocate_frame,
}
use spikeling_os.Process.{Process, page_size}
use spikeling_os.Process.Space.{
  Paging, Space, SpaceError, allocate, share_entries, map as map_page, map_heap,
  create_process_from_image, copy_pages, fork_build_child,
}
use spikeling_os.Process.Space.Copies.{AllOld, Forked, fork_build_child-Forked}

pub other :
    (page frame i : ℕ) (es es' : List ℕ) (below below' : ℕ → Option ℕ) (a : BootInfoFrameAllocator)
    → ◌≡◌ {A = Option (List ℕ × (ℕ → Option ℕ))}
        (some (es, λ p. if p == page / page_size then some frame else below p))
        (some (es', below'))
    → get_elem? es' i ≡ get_elem? es i
other page frame i es es' below below' a e = ground arith

-- `map_to` finds room in the tables that are there.
abbrev pub flat : Paging
flat = record {
  Entry = ℕ;
  unused = 0;
  Below = ℕ → Option ℕ;
  translate = λ es below va. below (va / page_size);
  map_to = λ page frame es below a.
      (some (es, λ p. if p == page / page_size then some frame else below p), a);
  same_map = λ page frame es below a. refl;
  advances = λ page frame es below a. omega arith;
  other_entries =
      λ page frame i es es' below below' a e ne. other page frame i es es' below below' a e;
}

abbrev regions : List Region
regions = record { start = 0; end = 0x10000; usable = true } ∷ []

regions-IsMap : IsMap regions
regions-IsMap = (omega arith, refl, omega arith, tt)

-- Page after page of ones; the parent has frames 1 to 6.
abbrev pub before : Space flat
before = record {
  allocator = record { memory_regions = regions; next = 7 };
  pages = λ f. replicate page_size 1;
  tables = λ f. 5 ∷ [];
  below = λ p. none;
  cr3 = 0;
}

abbrev parent_heap : List ℕ
parent_heap = 0x3000 ∷ 0x4000 ∷ 0x5000 ∷ 0x6000 ∷ []

abbrev child : Process
child = record {
  label = [];
  pml4_frame = 0x7000;
  code_frame = 0x8000;
  stack_frame = 0x9000;
  heap_frames = 0xa000 ∷ 0xb000 ∷ 0xc000 ∷ 0xd000 ∷ [];
  heap_used = 0;
  fds = none ∷ none ∷ none ∷ none ∷ [];
  extra_frames = [];
  parent_pid = none;
  pending_resume = none;
}

abbrev forked : Result SpaceError Process × Space flat
forked = fork_build_child flat [] 0x1000 0x2000 parent_heap before

old : AllOld regions 7 (0x1000 ∷ 0x2000 ∷ parent_heap)
unfolding usable_frames steps align_all
old = (
  record { index = 1; before = omega arith; numbered = refl },
  (
    record { index = 2; before = omega arith; numbered = refl },
    (
      record { index = 3; before = omega arith; numbered = refl },
      (
        record { index = 4; before = omega arith; numbered = refl },
        (
          record { index = 5; before = omega arith; numbered = refl },
          (record { index = 6; before = omega arith; numbered = refl }, tt),
        ),
      ),
    ),
  ),
)

forked_ok : forked ≡ (ok child, forked.1)
unfolding fork_build_child create_process_from_image map_heap map_page allocate allocate_frame ◌>>=◌
    usable_frames steps align_all share_entries copy_pages
forked_ok = refl

fork_build_child-Forked_example : Forked flat before 0x1000 0x2000 parent_heap child forked.1
fork_build_child-Forked_example =
    fork_build_child-Forked flat [] parent_heap 0x1000 0x2000 before forked.1 child regions-IsMap
      old (length-replicate {A = ℕ} page_size 1) refl forked_ok
