-- ===== src/Fs/Laws/WriteFile.antt =====
-- write_file() of kernel/src/fs.rs in the root directory, on a drive that raises no error: what it
-- goes through, and the disk that it leaves.
use spikeling_os.Base.{
  ℕ, ◌+◌, ◌*◌, ◌≤◌, leb, ◌≡◌, refl, sym, ap, ◌∙◌, List, [], ◌∷◌, Option, none, true, arith, length,
  set, inl, inr, length-set, Option-cases,
}
use spikeling_os.Base.Result.{ok, Result-cases}
use spikeling_os.Ata.{Disk, IsHealthy, store, write_sector_healthy, store-IsHealthy, drive_address}
use spikeling_os.Fs.Table.{
  DirEntry, dir_lba, sector_size, table_sector, load_dir_at, save_dir_at, name_bytes,
}
use spikeling_os.Fs.Table.RoundTrip.{FitsEntry, load_dir_at-save_dir_at}
use spikeling_os.Fs.Table.Fits.{
  IsSectored, load_dir_at-AllFit, length-load_dir_at, length-name_bytes, set-AllFit,
}
use spikeling_os.Fs.Walk.{rsplit_once, resolve_table}
use spikeling_os.Fs.Pool.{
  Range, num_data_sectors, max_file_sectors, collect_occupied, find_free_span,
}
use spikeling_os.Fs.Ops.{
  max_file_bytes, entry_at, choose_slot, old_allocation, allocate, sectors_needed, file_entry,
  write_sectors, write_file,
}
use spikeling_os.Fs.Laws.Span.{find_free_span_sound}
use spikeling_os.Fs.Laws.Sectors.{write_sectors-Stored}

-- A file of at most 4096 bytes takes as many sectors as its bytes need, and no more than eight.
pub sectors_needed_bounds :
    (bytes : List ℕ)
    → length bytes ≤ max_file_bytes
    → (length bytes ≤ sectors_needed bytes * sector_size)
      × (sectors_needed bytes ≤ max_file_sectors)
sectors_needed_bounds [] h = omega arith
sectors_needed_bounds (b ∷ bs) h = omega arith

-- A path without a slash names an entry of the root table.
pub resolve_table_root :
    (d : Disk) (path : List ℕ) → rsplit_once path ≡ none → resolve_table d path ≡ ok (dir_lba, path)
unfolding resolve_table
resolve_table_root d path e = rw (e, resolve_table) refl

-- The run that allocate() chooses lies in the pool.
pub allocate_in_pool :
    (old : Option Range) (needed s : ℕ) (d : Disk)
    → needed ≤ max_file_sectors
    → allocate old needed d ≡ ok s
    → s + needed ≤ num_data_sectors
unfolding allocate
allocate_in_pool old needed s d h e =
    elim (Option-cases (find_free_span (collect_occupied d old) needed)) [
      | inl p ↦ ground arith
      | inr (t, p) ↦
          let bound = find_free_span_sound (collect_occupied d old) needed t (omega arith) p in
          ground (arith, bound.0)
    ]

module _ (path bytes : List ℕ) (d : Disk) where
  abbrev pub entries : List DirEntry
  entries = load_dir_at dir_lba d

  abbrev pub target : List ℕ
  target = name_bytes path

  -- The root table after the write.
  abbrev pub new_entries : ℕ → ℕ → List DirEntry
  new_entries slot s = set entries slot (file_entry target bytes s)

  abbrev pub filled : ℕ → Disk
  filled s = (write_sectors s bytes 0 (sectors_needed bytes) d).1

  abbrev pub written : ℕ → ℕ → Disk
  written slot s = store dir_lba (table_sector (new_entries slot s)) (filled s)

  pub write_file_root :
      (slot s : ℕ)
      → IsHealthy d
      → rsplit_once path ≡ none
      → leb (length bytes) max_file_bytes ≡ true
      → choose_slot target entries ≡ ok slot
      → allocate (old_allocation (entry_at entries slot)) (sectors_needed bytes) d ≡ ok s
      → s + sectors_needed bytes ≤ num_data_sectors
      → write_file path bytes d ≡ (ok tt, written slot s)
  unfolding write_file save_dir_at
  write_file_root slot s h root small chosen got fits =
      let stored = write_sectors-Stored s bytes 0 (sectors_needed bytes) d h (omega arith) in
      ground (
        arith,
        resolve_table_root d path root,
        stored.0,
        write_sector_healthy dir_lba (table_sector (new_entries slot s)) (filled s) stored.1.healthy
            (omega arith),
      )

module _ (path bytes : List ℕ) (d : Disk) where
  pub written-IsHealthy :
      (slot s : ℕ)
      → IsHealthy d
      → s + sectors_needed bytes ≤ num_data_sectors
      → IsHealthy (written path bytes d slot s)
  written-IsHealthy slot s h fits =
      let stored = write_sectors-Stored s bytes 0 (sectors_needed bytes) d h (omega arith) in
      store-IsHealthy dir_lba (table_sector (new_entries path bytes d slot s))
        (filled path bytes d s) stored.1.healthy

  file_entry-FitsEntry :
      (s : ℕ)
      → s + sectors_needed bytes ≤ num_data_sectors
      → FitsEntry (file_entry (name_bytes path) bytes s)
  file_entry-FitsEntry s fits = record {
    name_fits = length-name_bytes path;
    len_fits = omega arith;
    start_fits = ground arith;
    count_fits = omega arith;
  }

  pub load_dir_at-written :
      (slot s : ℕ)
      → IsHealthy d
      → IsSectored d
      → length bytes ≤ max_file_bytes
      → s + sectors_needed bytes ≤ num_data_sectors
      → load_dir_at dir_lba (written path bytes d slot s) ≡ new_entries path bytes d slot s
  unfolding save_dir_at
  load_dir_at-written slot s h sectored small fits =
      let stored = write_sectors-Stored s bytes 0 (sectors_needed bytes) d h (omega arith) in
      let table = new_entries path bytes d slot s in
      let disk = filled path bytes d s in
      let saved : save_dir_at dir_lba table disk ≡ (true, written path bytes d slot s) =
        write_sector_healthy dir_lba (table_sector table) disk stored.1.healthy (omega arith) in
      ap (λ r. load_dir_at dir_lba r.1) (sym saved)
      ∙ load_dir_at-save_dir_at dir_lba table disk
          (length-set (entries path bytes d) slot _ ∙ length-load_dir_at dir_lba d)
          (set-AllFit (entries path bytes d) slot _ (load_dir_at-AllFit dir_lba d sectored)
            (file_entry-FitsEntry s fits))
          (ap (λ r. r.0) saved) (stored.1.healthy.reads (drive_address dir_lba))

  -- What a successful write to the root directory has gone through.
  pub write_file_inv :
      (d' : Disk)
      → rsplit_once path ≡ none
      → write_file path bytes d ≡ (ok tt, d')
      → (slot : ℕ) × (s : ℕ) × (leb (length bytes) max_file_bytes ≡ true)
        × (choose_slot (target path bytes d) (entries path bytes d) ≡ ok slot)
        × (allocate (old_allocation (entry_at (entries path bytes d) slot)) (sectors_needed bytes) d
            ≡ ok s)
  unfolding write_file
  write_file_inv d' root e =
      let at_root = resolve_table_root d path root in
      elim (Result-cases (choose_slot (target path bytes d) (entries path bytes d))) [
        | inr (x, p) ↦ absurd (ground (arith, at_root))
        | inl (slot, p) ↦
            elim (Result-cases (
              allocate (old_allocation (entry_at (entries path bytes d) slot))
                (sectors_needed bytes) d)) [
                  | inr (x, q) ↦ absurd (ground (arith, at_root))
                  | inl (s, q) ↦ (slot, s, ground (arith, at_root), p, q)
                ]
      ]
