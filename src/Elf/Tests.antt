-- ===== src/Elf/Tests.antt =====
-- A small executable and broken ones, through the parser of kernel/src/elf.rs.
use spikeling_os.Base.{
  ℕ, ◌+◌, ◌*◌, ◌≤◌, ◌≡◌, ◌≢◌, refl, List, [], ◌∷◌, ◌++◌, length, replicate, take, to_le_bytes,
  from_le_bytes, bytes_eq,
}
use spikeling_os.Base.Result.{ok, err}
use spikeling_os.Elf.{
  ElfImage, out_of_bounds, table_past_end, phdr_size, max_load_segments, field, read_field,
  load_header, header, headers, parse_table, parse,
}
use spikeling_os.Elf.Safe.{parse-in_bounds}
use spikeling_os.Elf.Layout.{load_entries, AllLoadable}
use spikeling_os.Elf.Sound.{parse-ok}

abbrev u16 : ℕ → List ℕ
u16 n = to_le_bytes 2 n

abbrev u32 : ℕ → List ℕ
u32 n = to_le_bytes 4 n

abbrev u64 : ℕ → List ℕ
u64 n = to_le_bytes 8 n

abbrev entry_point : ℕ
entry_point = 0x5555_5000_0000

-- One segment of four bytes in a page of memory.
abbrev file_header : List ℕ
file_header =
    0x7f ∷ b'E' ∷ b'L' ∷ b'F' ∷ 2 ∷ 1 ∷ replicate 10 0
    ++ (u16 2
        ++ (u16 0x3e
            ++ (u32 1
                ++ (u64 entry_point
                    ++ (u64 64
                        ++ (u64 0
                            ++ (u32 0 ++ (u16 64 ++ (u16 56 ++ (u16 1 ++ replicate 6 0))))))))))

abbrev program_header : List ℕ
program_header =
    u32 1 ++ (u32 5 ++ (u64 120 ++ (u64 entry_point ++ (u64 0 ++ (u64 4 ++ (u64 4096 ++ u64 0))))))

abbrev executable : List ℕ
executable = file_header ++ (program_header ++ 1 ∷ 2 ∷ 3 ∷ 4 ∷ [])

abbrev loaded : ElfImage
loaded = record {
  entry = entry_point;
  segments = record { vaddr = entry_point; offset = 120; filesz = 4; memsz = 4096; flags = 5 } ∷ [];
}

executable_parsed : parse executable ≡ ok loaded
unfolding parse parse_table headers header load_header read_field from_le_bytes to_le_bytes bytes_eq
executable_parsed = refl

cut_refused : parse (take 100 executable) ≡ err table_past_end
unfolding parse parse_table headers header load_header read_field from_le_bytes to_le_bytes bytes_eq
cut_refused = refl

parse-in_bounds_example : parse (take 100 executable) ≢ err out_of_bounds
parse-in_bounds_example = parse-in_bounds (take 100 executable)

parse-ok_example :
    (loaded.entry ≡ field 8 executable 24)
    × (field 8 executable 32 + phdr_size * field 2 executable 56 ≤ length executable)
    × (loaded.segments ≡ load_entries executable (field 8 executable 32) (field 2 executable 56))
    × AllLoadable executable loaded.segments
    × (1 ≤ length loaded.segments)
    × (length loaded.segments ≤ max_load_segments)
parse-ok_example = parse-ok executable loaded executable_parsed
