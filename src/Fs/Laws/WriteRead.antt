-- ===== src/Fs/Laws/WriteRead.antt =====
-- write_file() and read_file() of kernel/src/fs.rs on a drive that raises no error.
use spikeling_os.Base.{
  ℕ, ◌+◌, ◌%◌, ◌^◌, ◌≤◌, ◌<◌, ◌==◌, ◌≡◌, refl, sym, ap, ap₂, if◌then◌else◌, ◌∙◌, List, [], ◌∷◌,
  none, some, false, arith, length, take, bytes_eq_refl,
}
use spikeling_os.Base.Result.{ok}
use spikeling_os.Ata.{Disk, IsHealthy, sectors-store_ne}
use spikeling_os.Fs.Table.{DirEntry, dir_lba, table_sector}
use spikeling_os.Fs.Table.Fits.{IsSectored}
use spikeling_os.Fs.Walk.{rsplit_once}
use spikeling_os.Fs.Pool.{file_data_start_lba, num_data_sectors}
use spikeling_os.Fs.Ops.{
  file_sector, max_file_bytes, entry_at, old_allocation, sectors_needed, file_entry, write_file,
}
use spikeling_os.Fs.Read.{read_sectors, read_entry, read_file}
use spikeling_os.Fs.Laws.Sectors.{
  write_sectors-Stored, file_sectors, read_sectors-file_sectors, take-file_sectors,
}
use spikeling_os.Fs.Laws.WriteFile.{
  sectors_needed_bounds, allocate_in_pool, resolve_table_root, entries, target, new_entries, filled,
  written, write_file_root, written-IsHealthy, load_dir_at-written, write_file_inv,
}
use spikeling_os.Fs.Laws.Lookup.{find_entry-set, choose_slot-IsFirst}

read_entry_of_sectors :
    (e : DirEntry) (d : Disk) (xs : List ℕ)
    → e.is_dir ≡ false
    → (e.sector_count == 0) ≡ false
    → read_sectors e.start_lba 0 e.sector_count d ≡ some xs
    → read_entry e d ≡ ok (take e.len xs)
unfolding read_entry
read_entry_of_sectors e d xs file more got = ground arith

-- What the entry of a file points to is read back as the file.
read_entry-file_entry :
    (name bytes : List ℕ) (s : ℕ) (d : Disk)
    → IsHealthy d
    → length bytes ≤ max_file_bytes
    → s + sectors_needed bytes ≤ num_data_sectors
    → ((j : ℕ)
        → 0 ≤ j
        → j < sectors_needed bytes
        → d.sectors (file_data_start_lba + s + j) ≡ file_sector bytes j)
    → read_entry (file_entry name bytes s) d ≡ ok bytes
unfolding read_entry
read_entry-file_entry name [] s d h small fits at = refl
read_entry-file_entry name (b ∷ bs) s d h small fits at =
    let bytes : List ℕ = b ∷ bs in
    let n = sectors_needed bytes in
    let bounds = sectors_needed_bounds bytes small in
    let got =
      read_sectors-file_sectors (file_data_start_lba + s) bytes 0 n d h (omega arith)
        (λ j p q. at j p (omega arith)) in
    let count : n % 2 ^ 8 ≡ n = omega (arith, bounds.1) in
    let size : length bytes % 2 ^ 16 ≡ length bytes = omega arith in
    let start : (if n == 0 then 0 else file_data_start_lba + s) ≡ file_data_start_lba + s =
      ground (arith, bounds.0) in
    read_entry_of_sectors (file_entry name bytes s) d (file_sectors bytes 0 n) refl
      (ground (arith, bounds)) (ap₂ (λ l c. read_sectors l 0 c d) start count ∙ got)
    ∙ ap ok (ap (λ k. take k (file_sectors bytes 0 n)) size ∙ take-file_sectors bytes n bounds.0)

-- On a drive that raises no error, a file that write_file() has stored in the root directory is
-- what read_file() then returns for that path.
pub write_file-read_file :
    (path bytes : List ℕ) (d d' : Disk)
    → IsHealthy d
    → IsSectored d
    → rsplit_once path ≡ none
    → write_file path bytes d ≡ (ok tt, d')
    → read_file path d' ≡ ok bytes
unfolding read_file
write_file-read_file path bytes d d' h sectored root e =
    let (slot, s, small, chosen, got) = write_file_inv path bytes d d' root e in
    let size : length bytes ≤ max_file_bytes = ground arith in
    let n = sectors_needed bytes in
    let fits =
      allocate_in_pool (old_allocation (entry_at (entries path bytes d) slot)) n s d
        (sectors_needed_bounds bytes size).1 got in
    let first = choose_slot-IsFirst (target path bytes d) (entries path bytes d) slot chosen in
    let new = written path bytes d slot s in
    let result : d' ≡ new =
      ap (λ r. r.1) (sym e ∙ write_file_root path bytes d slot s h root small chosen got fits) in
    let stored = write_sectors-Stored s bytes 0 n d h (omega arith) in
    let found =
      find_entry-set (target path bytes d) (entries path bytes d) slot
        (file_entry (target path bytes d) bytes s) first.0 (bytes_eq_refl (target path bytes d))
        first.1 in
    let back =
      read_entry-file_entry (target path bytes d) bytes s new
        (written-IsHealthy path bytes d slot s h fits) size fits
        (λ j p q.
          sectors-store_ne dir_lba (file_data_start_lba + s + j)
            (table_sector (new_entries path bytes d slot s)) (filled path bytes d s) (omega arith)
          ∙ stored.1.inside j p (omega arith)) in
    rw (result, resolve_table_root new path root)
      (ground (arith, load_dir_at-written path bytes d slot s h sectored size fits, found, back))
