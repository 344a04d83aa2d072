-- ===== src/Fs/Ops.antt =====
-- kernel/src/fs.rs, the operations that change the disk: make_dir(), write_file(), delete_file() and
-- remove_dir(). Paths and file contents are lists of bytes.
use spikeling_os.Base.{
  ℕ, zero, suc, ◌+◌, ◌-◌, ◌*◌, ◌/◌, ◌%◌, ◌^◌, ◌==◌, leb, List, [], ◌∷◌, ◌++◌, Option, none, some,
  Bool, true, false, not, if◌then◌else◌, length, get_or, set, take, drop, replicate, position, any,
}
use spikeling_os.Base.Result.{Result, ok, err, ok_or}
use spikeling_os.Ata.{Disk, write_sector}
use spikeling_os.Fs.Error.{
  FsError, already_exists, directory_full, no_free_space, is_a_directory, no_such_file,
  file_not_directory, not_empty, file_too_large,
}
use spikeling_os.Fs.Table.{
  DirEntry, sector_size, empty_entry, empty_table, load_dir_at, save_dir_at, name_bytes,
}
use spikeling_os.Fs.Walk.{is_named, resolve_table}
use spikeling_os.Fs.Pool.{
  Range, file_data_start_lba, max_file_sectors, collect_occupied, find_free_span,
}
use spikeling_os.Fs.Io.{Io, ◌>>=◌, ◌>>◌, done, lift, gets, check, require, save}

abbrev pub max_file_bytes : ℕ
max_file_bytes = max_file_sectors * sector_size

abbrev pub entry_at : List DirEntry → ℕ → DirEntry
entry_at entries i = get_or entries i empty_entry

abbrev pub is_free : DirEntry → Bool
is_free e = not e.used

abbrev pub dir_entry : List ℕ → ℕ → DirEntry
dir_entry name lba = record {
  used = true;
  is_dir = true;
  name = name;
  len = 0;
  start_lba = lba;
  sector_count = 1;
}

unfoldable pub make_dir : List ℕ → Io (Unit {0})
make_dir path = do
  (table_lba, name) ← lift (λ d. resolve_table d path)
  table ← gets (load_dir_at table_lba)
  let target = name_bytes name
  check (not (any (is_named target) table)) already_exists
  slot ← require (position is_free table) directory_full
  occupied ← gets (λ d. collect_occupied d none)
  start_pool ← require (find_free_span occupied 1) no_free_space
  let new_table_lba = file_data_start_lba + start_pool
  save (save_dir_at new_table_lba empty_table)
  save (save_dir_at table_lba (set table slot (dir_entry target new_table_lba)))

-- `if data.is_empty() { 0 } else { (data.len() + SECTOR_SIZE - 1) / SECTOR_SIZE }`
abbrev pub sectors_needed : List ℕ → ℕ
sectors_needed [] = 0
sectors_needed (b ∷ bs) = (length (b ∷ bs) + (sector_size - 1)) / sector_size

-- Bytes `i * 512` and on, padded to a sector.
abbrev pub file_sector : List ℕ → ℕ → List ℕ
file_sector bytes i =
    let part = take sector_size (drop (i * sector_size) bytes) in
    part ++ replicate (sector_size - length part) 0

-- `for i in 0..needed`, from sector `i` on with `n` to go.
unfoldable pub write_sectors : ℕ → List ℕ → ℕ → ℕ → Io (Unit {0})
write_sectors start_pool bytes i zero = done tt
write_sectors start_pool bytes i (suc n) = do
  save (write_sector (file_data_start_lba + start_pool + i) (file_sector bytes i))
  write_sectors start_pool bytes (i + 1) n

-- The entry of that name if it is a file, or else the first free one.
unfoldable pub choose_slot : List ℕ → List DirEntry → Result FsError ℕ
choose_slot target entries = elim (position (is_named target) entries) [
  | some i ↦ if (entry_at entries i).is_dir then err is_a_directory else ok i
  | none ↦ ok_or (position is_free entries) directory_full
]

abbrev pub old_allocation : DirEntry → Option Range
old_allocation e = if e.used then some (e.start_lba, e.sector_count) else none

unfoldable pub allocate : Option Range → ℕ → Disk → Result FsError ℕ
allocate old needed d =
    if needed == 0
    then ok 0
    else ok_or (find_free_span (collect_occupied d old) needed) no_free_space

abbrev pub file_entry : List ℕ → List ℕ → ℕ → DirEntry
file_entry name bytes start_pool =
    let needed = sectors_needed bytes in
    record {
      used = true;
      is_dir = false;
      name = name;
      len = length bytes % 2 ^ 16;
      start_lba = if needed == 0 then 0 else file_data_start_lba + start_pool;
      sector_count = needed % 2 ^ 8;
    }

unfoldable pub write_file : List ℕ → List ℕ → Io (Unit {0})
write_file path bytes = do
  check (leb (length bytes) max_file_bytes) file_too_large
  (table_lba, name) ← lift (λ d. resolve_table d path)
  entries ← gets (load_dir_at table_lba)
  let target = name_bytes name
  slot ← lift (λ _. choose_slot target entries)
  let needed = sectors_needed bytes
  start_pool ← lift (allocate (old_allocation (entry_at entries slot)) needed)
  write_sectors start_pool bytes 0 needed
  save (save_dir_at table_lba (set entries slot (file_entry target bytes start_pool)))

unfoldable pub delete_file : List ℕ → Io (Unit {0})
delete_file path = do
  (table_lba, name) ← lift (λ d. resolve_table d path)
  entries ← gets (load_dir_at table_lba)
  slot ← require (position (is_named (name_bytes name)) entries) no_such_file
  check (not (entry_at entries slot).is_dir) is_a_directory
  save (save_dir_at table_lba (set entries slot empty_entry))

unfoldable pub remove_dir : List ℕ → Io (Unit {0})
remove_dir path = do
  (table_lba, name) ← lift (λ d. resolve_table d path)
  entries ← gets (load_dir_at table_lba)
  slot ← require (position (is_named (name_bytes name)) entries) no_such_file
  check (entry_at entries slot).is_dir (file_not_directory name)
  sub_table ← gets (load_dir_at (entry_at entries slot).start_lba)
  check (not (any (λ e. e.used) sub_table)) not_empty
  save (save_dir_at table_lba (set entries slot empty_entry))
