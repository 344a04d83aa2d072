-- ===== src/Fs/Table.antt =====
-- kernel/src/fs.rs, `struct DirEntry`, load_dir_at(), save_dir_at() and name_bytes(): a directory
-- table in one sector.
pub mod RoundTrip
pub mod Fits
use spikeling_os.Base.{
  ℕ, zero, suc, ◌+◌, ◌-◌, ◌*◌, ◌==◌, List, [], ◌∷◌, ◌++◌, Option, none, some, Bool, true, false,
  not, if◌then◌else◌, length, get_or, take, drop, replicate, to_le_bytes, from_le_bytes,
}
use spikeling_os.Ata.{Disk, read_sector, write_sector}

abbrev pub dir_lba : ℕ
dir_lba = 1

abbrev pub max_entries : ℕ
max_entries = 8

abbrev pub magic : ℕ
magic = 0x53504B46

abbrev pub name_len : ℕ
name_len = 16

-- name, used flag, is_dir flag, u16 len, u32 start_lba, u8 sector_count
abbrev pub entry_len : ℕ
entry_len = name_len + 1 + 1 + 2 + 4 + 1

abbrev pub sector_size : ℕ
sector_size = 512

pub record DirEntry : Type 0 where
  pub used : Bool
  pub is_dir : Bool
  pub name : List ℕ
  pub len : ℕ
  pub start_lba : ℕ
  pub sector_count : ℕ

-- `DirEntry::empty()`
abbrev pub empty_entry : DirEntry
empty_entry = record {
  used = false;
  is_dir = false;
  name = replicate name_len 0;
  len = 0;
  start_lba = 0;
  sector_count = 0;
}

abbrev pub empty_table : List DirEntry
empty_table = replicate max_entries empty_entry

abbrev pub flag_byte : Bool → ℕ
flag_byte true = 1
flag_byte false = 0

-- One entry of the table, from the first byte of its slot on.
unfoldable pub encode_entry : DirEntry → List ℕ
encode_entry e =
    flag_byte e.used
    ∷ flag_byte e.is_dir
    ∷ (e.name ++ (to_le_bytes 2 e.len ++ (to_le_bytes 4 e.start_lba ++ e.sector_count ∷ [])))

unfoldable pub decode_entry : List ℕ → DirEntry
decode_entry bytes =
    let rest = drop (2 + name_len) bytes in
    record {
      used = not (get_or bytes 0 0 == 0);
      is_dir = not (get_or bytes 1 0 == 0);
      name = take name_len (drop 2 bytes);
      len = from_le_bytes 2 rest;
      start_lba = from_le_bytes 4 (drop 2 rest);
      sector_count = get_or rest 6 0;
    }

unfoldable pub encode_entries : List DirEntry → List ℕ
encode_entries [] = []
encode_entries (e ∷ es) = encode_entry e ++ encode_entries es

-- Entry `i` and the `n - 1` that follow it, each read at `off = 4 + i * ENTRY_LEN`.
unfoldable pub decode_entries : List ℕ → ℕ → ℕ → List DirEntry
decode_entries buf i zero = []
decode_entries buf i (suc n) =
    decode_entry (drop (4 + i * entry_len) buf) ∷ decode_entries buf (i + 1) n

-- The zeroed sector with the magic and the entries stored one after the other.
unfoldable pub table_sector : List DirEntry → List ℕ
table_sector entries =
    let written = to_le_bytes 4 magic ++ encode_entries entries in
    written ++ replicate (sector_size - length written) 0

unfoldable pub parse_sector : List ℕ → List DirEntry
parse_sector buf =
    if from_le_bytes 4 buf == magic then decode_entries buf 0 max_entries else empty_table

-- An unreadable sector and one without the magic count as an empty directory.
unfoldable pub load_dir_at : ℕ → Disk → List DirEntry
load_dir_at lba d = elim (read_sector lba d) [ none ↦ empty_table | some buf ↦ parse_sector buf ]

unfoldable pub save_dir_at : ℕ → List DirEntry → Disk → Bool × Disk
save_dir_at lba entries d = write_sector lba (table_sector entries) d

-- A name is cut to 16 bytes, or padded with zeros.
unfoldable pub name_bytes : List ℕ → List ℕ
name_bytes name = take name_len name ++ replicate (name_len - length name) 0
