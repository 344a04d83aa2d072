-- ===== src/Fs/Pool.antt =====
-- kernel/src/fs.rs, collect_occupied(), collect_occupied_at() and find_free_span(): which sectors
-- of the shared pool are taken, and the first free run.
-- `start_lba + sector_count` is taken not to wrap 32 bits, as for every entry that `Ops` stores.
use spikeling_os.Base.{
  ℕ, zero, suc, ◌+◌, ◌-◌, ◌*◌, ◌==◌, ltb, List, [], ◌∷◌, ◌++◌, Option, none, some, Bool, false, not,
  ◌&&◌, ◌||◌, if◌then◌else◌,
}
use spikeling_os.Ata.{Disk}
use spikeling_os.Fs.Table.{DirEntry, dir_lba, max_entries, load_dir_at}
use spikeling_os.Fs.Walk.{max_depth}

abbrev pub file_data_start_lba : ℕ
file_data_start_lba = 2

abbrev pub max_file_sectors : ℕ
max_file_sectors = 8

abbrev pub num_data_sectors : ℕ
num_data_sectors = max_entries * max_file_sectors

-- A start LBA and a sector count.
abbrev pub Range : Type 0
Range = ℕ × ℕ

-- The loop over one table; `below` collects a subdirectory.
unfoldable pub collect_entries : (ℕ → List Range) → List DirEntry → List Range
collect_entries below [] = []
collect_entries below (e ∷ es) =
    let rest = collect_entries below es in
    let inside = below e.start_lba in
    if not e.used || e.sector_count == 0
    then rest
    else (e.start_lba, e.sector_count) ∷ ((if e.is_dir then inside else []) ++ rest)

-- `fuel` is `MAX_DEPTH - depth`: at depth MAX_DEPTH the function returns at once.
unfoldable pub collect_occupied_at : Disk → ℕ → ℕ → List Range
collect_occupied_at d zero table_lba = []
collect_occupied_at d (suc fuel) table_lba =
    collect_entries (λ lba. collect_occupied_at d fuel lba) (load_dir_at table_lba d)

abbrev pub range_eq : Range → Range → Bool
range_eq (a, m) (b, n) = (a == b) && (m == n)

-- `position` and `remove` of the allocation that is being replaced.
unfoldable pub remove_range : Range → List Range → List Range
remove_range x [] = []
remove_range x (r ∷ rs) = if range_eq r x then rs else r ∷ remove_range x rs

unfoldable pub collect_occupied : Disk → Option Range → List Range
collect_occupied d none = collect_occupied_at d max_depth dir_lba
collect_occupied d (some x) = remove_range x (collect_occupied_at d max_depth dir_lba)

-- `cand_start < occ_end && occ_start < cand_end`
abbrev pub overlaps : ℕ → ℕ → Range → Bool
overlaps start needed (occ_start, occ_count) =
    ltb start (occ_start + occ_count) && ltb occ_start (start + needed)

unfoldable pub any_overlap : ℕ → ℕ → List Range → Bool
any_overlap start needed [] = false
any_overlap start needed (r ∷ rs) = overlaps start needed r || any_overlap start needed rs

-- The candidates from `start` on, `left` of them.
unfoldable pub find_span_from : List Range → ℕ → ℕ → ℕ → Option ℕ
find_span_from occupied needed start zero = none
find_span_from occupied needed start (suc left) =
    let later = find_span_from occupied needed (start + 1) left in
    if any_overlap (file_data_start_lba + start) needed occupied then later else some start

-- `for start in 0..=(NUM_DATA_SECTORS - needed)`; a caller asks for at most 8 sectors.
unfoldable pub find_free_span : List Range → ℕ → Option ℕ
find_free_span occupied needed = find_span_from occupied needed 0 (num_data_sectors - needed + 1)
