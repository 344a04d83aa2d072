-- ===== src/Fs/Tests.antt =====
-- The file system of kernel/src/fs.rs on small disks.
use spikeling_os.Base.{
  ℕ, zero, suc, ◌+◌, ◌≡◌, refl, ap, List, [], ◌∷◌, none, some, true, false, replicate, arith,
  position, ◌≤◌, ◌<◌, from_le_bytes,
}
use spikeling_os.Base.Result.{ok}
use spikeling_os.Ata.{Disk, IsHealthy, read_sector, write_sector}
use spikeling_os.Fs.Table.{
  DirEntry, empty_entry, load_dir_at, save_dir_at, parse_sector, name_bytes,
}
use spikeling_os.Fs.Table.Fits.{IsSectored, AllBytes}
use spikeling_os.Fs.Table.RoundTrip.{AllFit, load_dir_at-save_dir_at}
use spikeling_os.Fs.Walk.{rsplit_once, resolve_table}
use spikeling_os.Fs.Pool.{
  find_free_span, find_span_from, collect_occupied, collect_occupied_at, collect_entries,
  any_overlap, num_data_sectors,
}
use spikeling_os.Fs.Ops.{write_file, write_sectors, choose_slot, allocate}
use spikeling_os.Fs.Read.{read_file}
use spikeling_os.Fs.Laws.Span.{IsFree, find_free_span_lem}
use spikeling_os.Fs.Laws.WriteRead.{write_file-read_file}

abbrev blank : Disk
blank = record { sectors = λ a. replicate 512 0; read_error = λ a. false; write_error = λ a. false }

blank-IsHealthy : IsHealthy blank
blank-IsHealthy = record { reads = λ a. refl; writes = λ a. refl }

zeros-AllBytes : (n : ℕ) → AllBytes (replicate n 0)
zeros-AllBytes zero = tt
zeros-AllBytes (suc n) = (omega arith, zeros-AllBytes n)

blank-IsSectored : IsSectored blank
blank-IsSectored a = record { size = refl; bytes = zeros-AllBytes 512 }

abbrev hello_path : List ℕ
hello_path = b'a' ∷ []

abbrev hello : List ℕ
hello = 104 ∷ 105 ∷ []

hello_written : (write_file hello_path hello blank).0 ≡ ok tt
unfolding write_file resolve_table rsplit_once load_dir_at read_sector parse_sector from_le_bytes
    choose_slot position allocate find_free_span collect_occupied collect_occupied_at
    collect_entries find_span_from any_overlap write_sectors write_sector save_dir_at
hello_written = refl

hello_root : rsplit_once hello_path ≡ none
unfolding rsplit_once
hello_root = refl

write_file-read_file_example : read_file hello_path (write_file hello_path hello blank).1 ≡ ok hello
write_file-read_file_example =
    write_file-read_file hello_path hello blank (write_file hello_path hello blank).1
      blank-IsHealthy blank-IsSectored hello_root
      (ap (λ r. (r, (write_file hello_path hello blank).1)) hello_written)

-- Two files of 2 and 1 sectors and a hole of 1 between them.
abbrev ranges : List (ℕ × ℕ)
ranges = (2, 2) ∷ (5, 1) ∷ []

find_free_span_one : find_free_span ranges 1 ≡ some 2
unfolding find_free_span find_span_from any_overlap
find_free_span_one = refl

abbrev full : List (ℕ × ℕ)
full = (2, 64) ∷ []

find_free_span-full : find_free_span full 1 ≡ none
unfolding find_free_span find_span_from any_overlap
find_free_span-full = refl

find_free_span_lem_example :
    ((s : ℕ)
      → find_free_span ranges 1 ≡ some s
      → (s + 1 ≤ num_data_sectors) × IsFree ranges 1 s × ((t : ℕ) → t < s → ¬ IsFree ranges 1 t))
    × (find_free_span ranges 1 ≡ none → (t : ℕ) → t + 1 ≤ num_data_sectors → ¬ IsFree ranges 1 t)
find_free_span_lem_example = find_free_span_lem ranges 1 (omega arith)

abbrev notes : DirEntry
notes = record {
  used = true;
  is_dir = false;
  name = name_bytes (110 ∷ 49 ∷ []);
  len = 700;
  start_lba = 4;
  sector_count = 2;
}

abbrev table : List DirEntry
table = notes ∷ replicate 7 empty_entry

table-AllFit : AllFit table
unfolding name_bytes
table-AllFit = (
  record {
    name_fits = refl;
    len_fits = omega arith;
    start_fits = omega arith;
    count_fits = omega arith;
  },
  empties 7,
)
  where
    empties : (n : ℕ) → AllFit (replicate n empty_entry)
    empties zero = tt
    empties (suc n) = (
      record {
        name_fits = refl;
        len_fits = omega arith;
        start_fits = omega arith;
        count_fits = omega arith;
      },
      empties n,
    )

table_saved : (save_dir_at 1 table blank).0 ≡ true
unfolding save_dir_at write_sector
table_saved = refl

load_dir_at-save_dir_at_example : load_dir_at 1 (save_dir_at 1 table blank).1 ≡ table
load_dir_at-save_dir_at_example =
    load_dir_at-save_dir_at 1 table blank refl table-AllFit table_saved refl
