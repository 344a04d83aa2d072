-- ===== src/Process/Tests/Files.antt =====
-- A file of kernel/src/process.rs, through its cursor and through the disk.
use spikeling_os.Base.{
  ℕ, zero, suc, replicate, ◌+◌, ◌-◌, ◌≡◌, ◌&&◌, leb, ltb, max, if◌then◌else◌, refl, List, [], ◌∷◌,
  none, some, true, false, arith, length, get_or, position, from_le_bytes,
}
use spikeling_os.Ata.{IsHealthy, read_sector, write_sector}
use spikeling_os.Fs.Table.{load_dir_at, parse_sector, save_dir_at}
use spikeling_os.Fs.Table.Fits.{IsSectored, AllBytes}
use spikeling_os.Fs.Walk.{rsplit_once, resolve_table}
use spikeling_os.Fs.Pool.{
  find_free_span, find_span_from, collect_occupied, collect_occupied_at, collect_entries,
  any_overlap,
}
use spikeling_os.Fs.Ops.{write_file, write_sectors, choose_slot, allocate}
use spikeling_os.Process.{
  OpenFile, file, Process, Kernel, locate, at_place, put_place, find_process, put_process,
  with_process_mut,
}
use spikeling_os.Process.Fds.{install, open_file, lookup_fd, write_open_file}
use spikeling_os.Process.Ends.{take_fd, persist, release_entry, close_fd}
use spikeling_os.Process.Files.Cursor.{write_open_file-bytes}
use spikeling_os.Process.Files.Persist.{close_fd-open_file}
use spikeling_os.Process.Tests.{blank, idle, machine}

abbrev letter : OpenFile
letter = record { path = b'a' ∷ []; buffer = 104 ∷ 101 ∷ 121 ∷ []; pos = 1; dirty = true }

abbrev added : List ℕ
added = 1 ∷ 2 ∷ 3 ∷ []

write_open_file-bytes_example :
    (get_or (write_open_file letter added).1.buffer 2 0 ≡ (
      if leb 1 2 && ltb 2 (1 + (write_open_file letter added).0)
      then get_or added (2 - 1) 0
      else get_or letter.buffer 2 0))
    × ((write_open_file letter added).1.pos ≡ 1 + (write_open_file letter added).0)
    × (length (write_open_file letter added).1.buffer
        ≡ max (length letter.buffer) (1 + (write_open_file letter added).0))
write_open_file-bytes_example = write_open_file-bytes letter added 2

abbrev writer : Process
writer = record idle { fds = some (file letter) ∷ none ∷ none ∷ none ∷ [] }

abbrev writing : Kernel
writing = machine writer (none ∷ none ∷ none ∷ none ∷ [])

blank-IsHealthy : IsHealthy blank
blank-IsHealthy = record { reads = λ a. refl; writes = λ a. refl }

zeros-AllBytes : (n : ℕ) → AllBytes (replicate n 0)
zeros-AllBytes zero = tt
zeros-AllBytes (suc n) = (omega arith, zeros-AllBytes n)

blank-IsSectored : IsSectored blank
blank-IsSectored a = record { size = refl; bytes = zeros-AllBytes 512 }

writer_live : find_process 1 writing ≡ some writer
unfolding find_process locate at_place
writer_live = refl

letter_root : rsplit_once letter.path ≡ none
unfolding rsplit_once
letter_root = refl

abbrev closed : Kernel
closed = (close_fd 1 0 writing).1

letter_closed : (close_fd 1 0 writing).0 ≡ some true
unfolding close_fd with_process_mut take_fd find_process put_process locate at_place put_place
    release_entry persist write_file resolve_table rsplit_once load_dir_at read_sector parse_sector
    from_le_bytes choose_slot position allocate find_free_span collect_occupied collect_occupied_at
    collect_entries find_span_from any_overlap write_sectors write_sector save_dir_at
letter_closed = refl

letter_opened : (open_file 1 letter.path closed).0 ≡ some 0
unfolding open_file install with_process_mut close_fd take_fd find_process put_process locate
    at_place put_place release_entry persist position
letter_opened = refl

close_fd-open_file_example :
    lookup_fd 1 0 (open_file 1 letter.path closed).1
    ≡ some (file (record { path = letter.path; buffer = letter.buffer; pos = 0; dirty = false }))
close_fd-open_file_example =
    close_fd-open_file 1 0 1 0 writing writer letter writer_live refl refl blank-IsHealthy
      blank-IsSectored letter_root letter_closed letter_opened
