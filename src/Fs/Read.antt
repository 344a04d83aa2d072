-- ===== src/Fs/Read.antt =====
-- kernel/src/fs.rs, the operations that only read the disk: read_file() and list().
use spikeling_os.Base.{
  ℕ, zero, suc, ◌+◌, ◌==◌, List, [], ◌∷◌, ◌++◌, Option, none, some, not, if◌then◌else◌, take, Bool,
}
use spikeling_os.Base.Result.{Result, ok, ◌>>=◌, ◌>>◌, guard, ok_or}
use spikeling_os.Ata.{Disk, read_sector}
use spikeling_os.Fs.Error.{FsError, is_a_directory, no_such_file, ata_error}
use spikeling_os.Fs.Table.{DirEntry, dir_lba, load_dir_at, name_bytes}
use spikeling_os.Fs.Walk.{find_entry, resolve_dir_lba, resolve_table}

-- `for i in 0..sector_count`: the sectors one after the other, from number `i` on with `n` to go.
unfoldable pub read_sectors : ℕ → ℕ → ℕ → Disk → Option (List ℕ)
read_sectors lba i zero d = some []
read_sectors lba i (suc n) d =
    let rest = read_sectors lba (i + 1) n d in
    elim (read_sector (lba + i) d) [
      | none ↦ none
      | some sector ↦ elim rest [ none ↦ none | some more ↦ some (sector ++ more) ]
    ]

-- The sectors of a file, cut to its length.
unfoldable pub read_contents : DirEntry → Disk → Result FsError (List ℕ)
read_contents e d = do
  bytes ← ok_or (read_sectors e.start_lba 0 e.sector_count d) ata_error
  ok (take e.len bytes)

-- What read_file() returns of the entry that it found.
unfoldable pub read_entry : DirEntry → Disk → Result FsError (List ℕ)
unfolding read_contents
read_entry e d = do
  guard (not e.is_dir) is_a_directory
  if e.sector_count == 0 then ok [] else read_contents e d

unfoldable pub read_file : List ℕ → Disk → Result FsError (List ℕ)
read_file path d = do
  (table_lba, name) ← resolve_table d path
  entry ← ok_or (find_entry (name_bytes name) (load_dir_at table_lba d)) no_such_file
  read_entry entry d

-- `name_str`: the name up to its first zero byte. (Its decoding as UTF-8 is not modelled.)
unfoldable pub name_str : List ℕ → List ℕ
name_str [] = []
name_str (b ∷ bs) = if b == 0 then [] else b ∷ name_str bs

unfoldable pub list_entries : List DirEntry → List (List ℕ × Bool × ℕ)
list_entries [] = []
list_entries (e ∷ es) =
    if e.used then (name_str e.name, e.is_dir, e.len) ∷ list_entries es else list_entries es

unfoldable pub table_of : Option (List ℕ) → Disk → Result FsError ℕ
table_of none d = ok dir_lba
table_of (some dir) d = resolve_dir_lba d dir

unfoldable pub list : Option (List ℕ) → Disk → Result FsError (List (List ℕ × Bool × ℕ))
list dir d = do table_lba ← table_of dir d; ok (list_entries (load_dir_at table_lba d))
