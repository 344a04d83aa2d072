-- ===== src/Fs/Table/RoundTrip.antt =====
-- A table that is saved is read back as it was.
use spikeling_os.Base.{
  ℕ, ◌+◌, ◌*◌, ◌^◌, ◌<◌, ◌≡◌, refl, subst, sym, ap, ap₂, ◌∙◌, List, [], ◌∷◌, ◌++◌, Bool, true,
  false, append_assoc, arith, length, take, drop, to_le_bytes, from_le_bytes, length-append,
  length-to_le_bytes, take_exact, drop_exact, drop-drop, get_or, not, ◌==◌,
  from_le_bytes-to_le_bytes,
}
use spikeling_os.Ata.{Disk, read_sector, write_sector, drive_address}
use spikeling_os.Fs.Table.{
  DirEntry, flag_byte, name_len, entry_len, max_entries, encode_entry, decode_entry, encode_entries,
  decode_entries, table_sector, parse_sector, load_dir_at, save_dir_at,
}

-- What the fields' types hold.
pub record FitsEntry (e : DirEntry) : Type 0 where
  pub name_fits : length e.name ≡ name_len
  pub len_fits : e.len < 2 ^ 16
  pub start_fits : e.start_lba < 2 ^ 32
  pub count_fits : e.sector_count < 2 ^ 8

abbrev pub AllFit : List DirEntry → Type 0
AllFit [] = Unit {0}
AllFit (e ∷ es) = FitsEntry e × AllFit es

length-encode_entry : (e : DirEntry) → FitsEntry e → length (encode_entry e) ≡ entry_len
unfolding encode_entry
length-encode_entry e f = omega (
  arith,
  f.name_fits,
  length-append e.name (to_le_bytes 2 e.len ++ (to_le_bytes 4 e.start_lba ++ e.sector_count ∷ [])),
  length-append (to_le_bytes 2 e.len) (to_le_bytes 4 e.start_lba ++ e.sector_count ∷ []),
  length-append (to_le_bytes 4 e.start_lba) (e.sector_count ∷ []),
  length-to_le_bytes 2 e.len,
  length-to_le_bytes 4 e.start_lba,
)

decode_entry-encode_entry :
    (e : DirEntry) (rest : List ℕ) → FitsEntry e → decode_entry (encode_entry e ++ rest) ≡ e
unfolding encode_entry decode_entry to_le_bytes
decode_entry-encode_entry e rest f = λ i. record {
  used = used_lem e.used i;
  is_dir = used_lem e.is_dir i;
  name = (ap (take name_len) shape ∙ take_exact name_len e.name _ f.name_fits) i;
  len = (ap (from_le_bytes 2) tail ∙ from_le_bytes-to_le_bytes 2 e.len _ f.len_fits) i;
  start_lba =
      (ap (λ t. from_le_bytes 4 (drop 2 t)) tail
          ∙ from_le_bytes-to_le_bytes 4 e.start_lba (e.sector_count ∷ rest) f.start_fits)
        i;
  sector_count = ap (λ t. get_or t 6 0) tail i;
}
  where
    fields : List ℕ
    fields = to_le_bytes 2 e.len ++ (to_le_bytes 4 e.start_lba ++ e.sector_count ∷ [])

    shape : (e.name ++ fields) ++ rest ≡ e.name ++ (fields ++ rest)
    shape = append_assoc e.name fields rest

    tail : drop name_len ((e.name ++ fields) ++ rest) ≡ fields ++ rest
    tail = ap (drop name_len) shape ∙ drop_exact name_len e.name (fields ++ rest) f.name_fits

    used_lem : (b : Bool) → not (flag_byte b == 0) ≡ b
    used_lem true = refl
    used_lem false = refl

-- The entries from index `i` on, when they stand at their offset.
decode_entries-encode_entries :
    (es : List DirEntry) (buf rest : List ℕ) (i : ℕ)
    → AllFit es
    → drop (4 + i * entry_len) buf ≡ encode_entries es ++ rest
    → decode_entries buf i (length es) ≡ es
unfolding decode_entries encode_entries
decode_entries-encode_entries [] buf rest i f at = refl
decode_entries-encode_entries (e ∷ es) buf rest i f at =
    ap₂ ◌∷◌ (ap decode_entry here ∙ decode_entry-encode_entry e (encode_entries es ++ rest) f.0)
      (decode_entries-encode_entries es buf rest (i + 1) f.1 next)
  where
    here : drop (4 + i * entry_len) buf ≡ encode_entry e ++ (encode_entries es ++ rest)
    here = at ∙ append_assoc (encode_entry e) (encode_entries es) rest

    next : drop (4 + (i + 1) * entry_len) buf ≡ encode_entries es ++ rest
    next =
        ap (λ k. drop k buf) {y = 4 + i * entry_len + entry_len} (omega arith)
        ∙ sym (drop-drop (4 + i * entry_len) entry_len buf)
        ∙ ap (drop entry_len) here
        ∙ drop_exact entry_len (encode_entry e) _ (length-encode_entry e f.0)

parse_sector-table_sector :
    (es : List DirEntry) → length es ≡ max_entries → AllFit es → parse_sector (table_sector es) ≡ es
unfolding parse_sector table_sector to_le_bytes from_le_bytes
parse_sector-table_sector es n f =
    subst (λ k. decode_entries (table_sector es) 0 k ≡ es) n
      (decode_entries-encode_entries es (table_sector es) _ 0 f refl)

-- A table that was saved without an error is loaded as it was.
pub load_dir_at-save_dir_at :
    (lba : ℕ) (es : List DirEntry) (d : Disk)
    → length es ≡ max_entries
    → AllFit es
    → (save_dir_at lba es d).0 ≡ true
    → d.read_error (drive_address lba) ≡ false
    → load_dir_at lba (save_dir_at lba es d).1 ≡ es
unfolding load_dir_at save_dir_at read_sector write_sector
load_dir_at-save_dir_at lba es d n f saved readable =
    ground (arith, parse_sector-table_sector es n f)
