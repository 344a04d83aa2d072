-- ===== src/Fs/Table/Fits.antt =====
-- What a table read from a drive holds: always eight entries, whose fields fit their types where the
-- drive's sectors are 512 bytes.
use spikeling_os.Base.{
  ℕ, zero, suc, ◌+◌, ◌-◌, ◌*◌, ◌^◌, ◌≤◌, ◌<◌, ◌≡◌, refl, ap, List, [], ◌∷◌, arith, length, get_or,
  set, take, drop, replicate, from_le_bytes, length-take, length-drop, length-append,
  length-replicate, Bool-cases, Option-cases, inl, inr, ◌==◌,
}
use native.Mathlib.Nat.{pow-suc}
use spikeling_os.Ata.{Disk, read_sector, drive_address}
use spikeling_os.Fs.Table.{
  DirEntry, max_entries, name_len, entry_len, empty_entry, empty_table, decode_entry,
  decode_entries, parse_sector, load_dir_at, name_bytes, magic,
}
use spikeling_os.Fs.Table.RoundTrip.{FitsEntry, AllFit}

abbrev pub AllBytes : List ℕ → Type 0
AllBytes [] = Unit {0}
AllBytes (b ∷ bs) = (b < 256) × AllBytes bs

pub record IsSector (xs : List ℕ) : Type 0 where
  pub size : length xs ≡ 512
  pub bytes : AllBytes xs

-- Every sector of the drive holds 512 bytes.
abbrev pub IsSectored : Disk → Type 0
IsSectored d = (a : ℕ) → IsSector (d.sectors a)

get_or-lt : (xs : List ℕ) (i : ℕ) → AllBytes xs → get_or xs i 0 < 256
get_or-lt [] i h = omega arith
get_or-lt (x ∷ xs) zero h = h.0
get_or-lt (x ∷ xs) (suc i) h = get_or-lt xs i h.1

drop-AllBytes : (n : ℕ) (xs : List ℕ) → AllBytes xs → AllBytes (drop n xs)
drop-AllBytes zero xs h = h
drop-AllBytes (suc n) [] h = tt
drop-AllBytes (suc n) (x ∷ xs) h = drop-AllBytes n xs h.1

from_le_bytes-lt : (k : ℕ) (xs : List ℕ) → AllBytes xs → from_le_bytes k xs < 256 ^ k
unfolding from_le_bytes
from_le_bytes-lt zero xs h = omega arith
from_le_bytes-lt (suc k) xs h =
    omega (
      arith,
      get_or-lt xs 0 h,
      from_le_bytes-lt k (drop 1 xs) (drop-AllBytes 1 xs h),
      pow-suc 256 k,
    )

decode_entry-FitsEntry :
    (bytes : List ℕ) → entry_len ≤ length bytes → AllBytes bytes → FitsEntry (decode_entry bytes)
unfolding decode_entry
decode_entry-FitsEntry bytes n h =
    let rest = drop (2 + name_len) bytes in
    let b = drop-AllBytes (2 + name_len) bytes h in
    record {
      name_fits = omega (arith, length-take name_len (drop 2 bytes), length-drop 2 bytes);
      len_fits = omega (arith, from_le_bytes-lt 2 rest b);
      start_fits = omega (arith, from_le_bytes-lt 4 (drop 2 rest) (drop-AllBytes 2 rest b));
      count_fits = omega (arith, get_or-lt rest 6 b);
    }

decode_entries-AllFit :
    (buf : List ℕ) (i n : ℕ)
    → 4 + (i + n) * entry_len ≤ length buf
    → AllBytes buf
    → AllFit (decode_entries buf i n)
unfolding decode_entries
decode_entries-AllFit buf i zero k h = tt
decode_entries-AllFit buf i (suc n) k h = (
  decode_entry-FitsEntry (drop (4 + i * entry_len) buf)
      (omega (arith, length-drop (4 + i * entry_len) buf))
      (drop-AllBytes (4 + i * entry_len) buf h),
  decode_entries-AllFit buf (i + 1) n (omega arith) h,
)

empty_entry-FitsEntry : FitsEntry empty_entry
empty_entry-FitsEntry = record {
  name_fits = refl;
  len_fits = omega arith;
  start_fits = omega arith;
  count_fits = omega arith;
}

pub empty_table-AllFit : AllFit empty_table
empty_table-AllFit = let e = empty_entry-FitsEntry in (e, (e, (e, (e, (e, (e, (e, (e, tt))))))))

parse_sector-AllFit : (buf : List ℕ) → IsSector buf → AllFit (parse_sector buf)
unfolding parse_sector
parse_sector-AllFit buf s = elim (Bool-cases (from_le_bytes 4 buf == magic)) [
  | inl e ↦ rw e (decode_entries-AllFit buf 0 max_entries (omega (arith, s.size)) s.bytes)
  | inr e ↦ rw e empty_table-AllFit
]

pub load_dir_at-AllFit : (lba : ℕ) (d : Disk) → IsSectored d → AllFit (load_dir_at lba d)
unfolding load_dir_at read_sector
load_dir_at-AllFit lba d s = elim (Bool-cases (d.read_error (drive_address lba))) [
  | inl e ↦ rw (e, load_dir_at) empty_table-AllFit
  | inr e ↦
      rw (e, load_dir_at)
        (parse_sector-AllFit (d.sectors (drive_address lba)) (s (drive_address lba)))
]

length-decode_entries : (buf : List ℕ) (i n : ℕ) → length (decode_entries buf i n) ≡ n
unfolding decode_entries
length-decode_entries buf i zero = refl
length-decode_entries buf i (suc n) = ap suc (length-decode_entries buf (i + 1) n)

length-parse_sector : (buf : List ℕ) → length (parse_sector buf) ≡ max_entries
unfolding parse_sector
length-parse_sector buf = elim (Bool-cases (from_le_bytes 4 buf == magic)) [
  | inl e ↦ rw e (length-decode_entries buf 0 max_entries)
  | inr e ↦ rw e refl
]

-- A directory has eight entries, whatever the drive answers.
pub length-load_dir_at : (lba : ℕ) (d : Disk) → length (load_dir_at lba d) ≡ max_entries
unfolding load_dir_at
length-load_dir_at lba d = elim (Option-cases (read_sector lba d)) [
  | inl e ↦ rw (e, load_dir_at) refl
  | inr (buf, e) ↦ rw (e, load_dir_at) (length-parse_sector buf)
]

pub length-name_bytes : (name : List ℕ) → length (name_bytes name) ≡ name_len
unfolding name_bytes
length-name_bytes name = omega (
  arith,
  length-append (take name_len name) (replicate (name_len - length name) 0),
  length-take name_len name,
  length-replicate {A = ℕ} (name_len - length name) 0,
)

pub set-AllFit :
    (es : List DirEntry) (i : ℕ) (e : DirEntry) → AllFit es → FitsEntry e → AllFit (set es i e)
set-AllFit [] i e h f = tt
set-AllFit (x ∷ xs) zero e h f = (f, h.1)
set-AllFit (x ∷ xs) (suc i) e h f = (h.0, set-AllFit xs i e h.1 f)
