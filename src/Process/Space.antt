-- ===== src/Process/Space.antt =====
-- kernel/src/process.rs: how a process's address space is built, create_process_from_image() and
-- fork_build_child(). The page tables below the top level, and map_to() of the x86_64 crate, which
-- fills them, are a parameter: `Paging` says what its documentation does, and no more. A page is the
-- list of its bytes, reached by its frame; text for the serial port is left out.
pub mod Grows
pub mod Build
pub mod Copies
pub mod Table
pub mod Tests
use spikeling_os.Base.{
  ℕ, zero, suc, ◌+◌, ◌-◌, ◌*◌, ◌/◌, ◌%◌, ◌^◌, ◌≤◌, ◌≡◌, ◌≢◌, leb, ◌==◌, List, [], ◌∷◌, ◌++◌, Option,
  none, some, Bool, if◌then◌else◌, length, replicate, get_elem?,
}
use spikeling_os.Base.Result.{Result, ok, err}
use spikeling_os.Base.Stateful.{Stateful, ◌>>=◌, ◌>>◌, done, gets, modify, check}
use spikeling_os.Memory.{BootInfoFrameAllocator, allocate_frame}
use spikeling_os.Process.{Process, page_size}
use spikeling_os.Process.Heap.{heap_start, heap_page_count}

abbrev pub user_code_addr : ℕ
user_code_addr = 0x5555_5000_0000

abbrev pub user_stack_addr : ℕ
user_stack_addr = 0x5555_6000_0000

abbrev pub max_code_image_bytes : ℕ
max_code_image_bytes = page_size

-- `VirtAddr::p4_index`
abbrev pub p4_index : ℕ → ℕ
p4_index va = (va / 2 ^ 39) % 512

pub data SpaceError : Type 0 where
  image_too_large split_p4_index no_frame_pml4 no_frame_code no_frame_stack : SpaceError
  map_failed_code map_failed_stack no_frame_heap map_failed_heap : SpaceError

-- The page tables. `map_to` takes a page, its frame, a top-level table and what is below it.
pub record Paging : Type 1 where
  pub Entry : Type 0
  pub unused : Entry
  pub Below : Type 0
  -- The frame of the page that an address lies in.
  pub translate : List Entry → Below → ℕ → Option ℕ
  pub map_to :
      ℕ
      → ℕ
      → List Entry
      → Below
      → BootInfoFrameAllocator
      → Option (List Entry × Below) × BootInfoFrameAllocator
  -- It takes frames for tables from the allocator, and gives none back.
  pub same_map :
      (page frame : ℕ) (es : List Entry) (b : Below) (a : BootInfoFrameAllocator)
      → (map_to page frame es b a).1.memory_regions ≡ a.memory_regions
  pub advances :
      (page frame : ℕ) (es : List Entry) (b : Below) (a : BootInfoFrameAllocator)
      → a.next ≤ (map_to page frame es b a).1.next
  -- It changes no entry of the top-level table but the page's own.
  pub other_entries :
      (page frame i : ℕ) (es es' : List Entry) (b b' : Below) (a : BootInfoFrameAllocator)
      → (map_to page frame es b a).0 ≡ some (es', b')
      → i ≢ p4_index page
      → get_elem? es' i ≡ get_elem? es i

module _ (pg : Paging) where
  -- The physical memory and the tables in it; `cr3` is the frame of the table in use.
  pub record Space : Type 0 where
    pub allocator : BootInfoFrameAllocator
    pub pages : ℕ → List ℕ
    pub tables : ℕ → List pg.Entry
    pub below : pg.Below
    pub cr3 : ℕ

  abbrev pub Build : Type 0 → Type 0
  Build A = Stateful Space SpaceError A

  -- `frame_allocator.allocate_frame().ok_or(e)?`
  unfoldable pub allocate : SpaceError → Build ℕ
  allocate e s =
      let (frame, a) = allocate_frame s.allocator in
      let s' : Space = record s { allocator = a } in
      elim frame [ none ↦ (err e, s') | some f ↦ (ok f, s') ]

  abbrev pub write_page : ℕ → List ℕ → Space → Space
  write_page frame bytes s = record s { pages = λ f. if f == frame then bytes else s.pages f }

  -- `for i in 0u16..512`: every entry of the kernel's table but the user's, which stays unused.
  unfoldable pub share_entries : ℕ → ℕ → List pg.Entry → List pg.Entry
  share_entries user i [] = []
  share_entries user i (e ∷ es) =
      (if i == user then pg.unused else e) ∷ share_entries user (i + 1) es

  abbrev pub share_kernel : ℕ → Space → Space
  share_kernel pml4 s =
      let shared = share_entries (p4_index user_code_addr) 0 (s.tables s.cr3) in
      record s { tables = λ f. if f == pml4 then shared else s.tables f }

  -- `process_mapper.map_to(page, frame, …).map_err(…)?`
  unfoldable pub map : ℕ → ℕ → ℕ → SpaceError → Build (Unit {0})
  map pml4 page frame e s =
      let (done, a) = pg.map_to page frame (s.tables pml4) s.below s.allocator in
      elim done [
        | none ↦ (err e, record s { allocator = a })
        | some (es, b) ↦ (
          ok tt,
          record s { allocator = a; tables = λ f. if f == pml4 then es else s.tables f; below = b },
        )
      ]

  -- `for i in 0..HEAP_PAGE_COUNT`, from page `i` on with `n` to go: the frames, zeroed.
  unfoldable pub map_heap : ℕ → ℕ → ℕ → Build (List ℕ)
  map_heap pml4 i zero = done []
  map_heap pml4 i (suc n) = do
    frame ← allocate no_frame_heap
    map pml4 (heap_start + i * page_size) frame map_failed_heap
    modify (write_page frame (replicate page_size 0))
    frames ← map_heap pml4 (i + 1) n
    done (frame ∷ frames)

  -- `write_bytes(ptr, 0, PAGE_SIZE)`, then the image over it.
  abbrev pub code_page : List ℕ → List ℕ
  code_page image = image ++ replicate (page_size - length image) 0

  abbrev pub new_process : List ℕ → ℕ → ℕ → ℕ → List ℕ → Process
  new_process label pml4 code stack heap = record {
    label = label;
    pml4_frame = pml4;
    code_frame = code;
    stack_frame = stack;
    heap_frames = heap;
    heap_used = 0;
    fds = none ∷ none ∷ none ∷ none ∷ [];
    extra_frames = [];
    parent_pid = none;
    pending_resume = none;
  }

  unfoldable pub create_process_from_image : List ℕ → List ℕ → Build Process
  create_process_from_image label image = do
    check (leb (length image) max_code_image_bytes) image_too_large
    check (p4_index user_code_addr == p4_index user_stack_addr) split_p4_index
    pml4 ← allocate no_frame_pml4
    modify (share_kernel pml4)
    code ← allocate no_frame_code
    stack ← allocate no_frame_stack
    map pml4 user_code_addr code map_failed_code
    map pml4 user_stack_addr stack map_failed_stack
    heap ← map_heap pml4 0 heap_page_count
    modify (write_page code (code_page image))
    done (new_process label pml4 code stack heap)

  -- `copy_nonoverlapping` of one page to another.
  abbrev pub copy_page : ℕ → ℕ → Space → Space
  copy_page from to s = write_page to (s.pages from) s

  -- `child.heap_frames.iter().zip(parent_heap_frames.iter())`
  unfoldable pub copy_pages : List ℕ → List ℕ → Space → Space
  copy_pages [] froms s = s
  copy_pages (to ∷ tos) [] s = s
  copy_pages (to ∷ tos) (from ∷ froms) s = copy_pages tos froms (copy_page from to s)

  unfoldable pub fork_build_child : List ℕ → ℕ → ℕ → List ℕ → Build Process
  fork_build_child label parent_code parent_stack parent_heap = do
    code_bytes ← gets (λ s. s.pages parent_code)
    child ← create_process_from_image label code_bytes
    modify (copy_page parent_stack child.stack_frame)
    modify (copy_pages child.heap_frames parent_heap)
    done child
