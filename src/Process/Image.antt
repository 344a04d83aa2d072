-- ===== src/Process/Image.antt =====
-- kernel/src/process.rs, create_process_from_elf(): the checks of a parsed executable, before anything is
-- allocated. `none` is the panic of VirtAddr::new() on an address that is not canonical.
pub mod Private
mod Tests
use spikeling_os.Base.{
  ℕ, zero, suc, ◌+◌, ◌-◌, ◌*◌, ◌/◌, ◌%◌, ◌^◌, ◌<◌, ◌≤◌, ◌≡◌, ◌≢◌, ◌⊎◌, refl, ltb, leb, ◌==◌, ◌&&◌,
  ◌||◌, not, List, [], ◌∷◌, Option, none, some, Bool, true, false, if◌then◌else◌, length, any, min,
  arith, Bool-cases, inl, inr,
}
use spikeling_os.Base.Result.{Result, ok, err}
use spikeling_os.Elf.{ProgramSegment, max_load_segments}
use spikeling_os.Process.{page_size}
use spikeling_os.Process.Space.{user_code_addr, user_stack_addr, p4_index}

abbrev pub max_pages_per_elf_segment : ℕ
max_pages_per_elf_segment = 4

abbrev pub max_total_elf_pages : ℕ
max_total_elf_pages = 16

pub data ImageError : Type 0 where
  wrong_entry no_segments too_many_segments split_p4 entry_outside : ImageError
  unaligned_segment empty_segment segment_too_long outside_slot too_many_pages : ImageError

-- What VirtAddr::new() takes: bits 48 to 63 are copies of bit 47.
abbrev pub is_canonical : ℕ → Bool
is_canonical va = ltb va (2 ^ 47) || leb (2 ^ 64 - 2 ^ 47) va

-- `s.p_memsz.div_ceil(PAGE_SIZE)`
abbrev pub page_count : ProgramSegment → ℕ
page_count s = (s.memsz + (page_size - 1)) / page_size

-- `entry >= s.p_vaddr && entry < s.p_vaddr.saturating_add(s.p_memsz)`
abbrev pub holds_entry : ℕ → ProgramSegment → Bool
holds_entry entry s = leb s.vaddr entry && ltb entry (min (s.vaddr + s.memsz) (2 ^ 64 - 1))

-- `for i in 0..pages`, with `n` pages to go.
unfoldable pub check_pages : ℕ → ℕ → ℕ → Option (Result ImageError (Unit {0}))
check_pages vaddr i zero = some (ok tt)
check_pages vaddr i (suc n) =
    let rest = check_pages vaddr (i + 1) n in
    let va = (vaddr + i * page_size) % 2 ^ 64 in
    if is_canonical va
    then if p4_index va == p4_index user_code_addr then rest else some (err outside_slot)
    else none

unfoldable pub check_segment : ProgramSegment → Option (Result ImageError (Unit {0}))
check_segment s =
    if not (s.vaddr % page_size == 0)
    then some (err unaligned_segment)
    else if s.memsz == 0
    then some (err empty_segment)
    else if ltb max_pages_per_elf_segment (page_count s)
    then some (err segment_too_long)
    else check_pages s.vaddr 0 (page_count s)

-- The loop over the segments; the sum of at most 16 times 4 pages does not overflow.
unfoldable pub check_segments : ℕ → List ProgramSegment → Option (Result ImageError ℕ)
check_segments total [] = some (ok total)
check_segments total (s ∷ ss) =
    let rest = check_segments (total + page_count s) ss in
    elim (check_segment s) [ none ↦ none | some (err e) ↦ some (err e) | some (ok u) ↦ rest ]

abbrev pub within_cap : Option (Result ImageError ℕ) → Option (Result ImageError ℕ)
within_cap none = none
within_cap (some (err e)) = some (err e)
within_cap (some (ok total)) =
    if ltb max_total_elf_pages total then some (err too_many_pages) else some (ok total)

unfoldable pub check_image : ℕ → List ProgramSegment → Option (Result ImageError ℕ)
check_image entry segments =
    if not (entry == user_code_addr)
    then some (err wrong_entry)
    else if length segments == 0
    then some (err no_segments)
    else if ltb max_load_segments (length segments)
    then some (err too_many_segments)
    else if not (p4_index user_code_addr == p4_index user_stack_addr)
    then some (err split_p4)
    else if not (any (holds_entry entry) segments)
    then some (err entry_outside)
    else within_cap (check_segments 0 segments)
