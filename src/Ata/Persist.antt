-- ===== src/Ata/Persist.antt =====
-- kernel/src/ata.rs, save_weights() and load_weights(): named weights in one sector of the drive.
pub mod RoundTrip
mod Tests
use spikeling_os.Base.{
  ℕ, zero, suc, ◌+◌, ◌-◌, ◌*◌, ◌/◌, ◌%◌, ◌==◌, List, [], ◌∷◌, ◌++◌, Option, none, some, Bool, true,
  false, min, if◌then◌else◌, length, get_or, take, drop, replicate, position, to_le_bytes,
  from_le_bytes,
}
use spikeling_os.Base.Utf8.{is_utf8}
use spikeling_os.Base.Result.{Result, ok, err}
use spikeling_os.Ata.{Disk, read_sector, write_sector}
use spikeling_os.Ternary.{trits_per_weight}
use spikeling_os.Ternary.Weights.{WeightFloats, encode_weight, decode_weight}

-- MAGIC, "SPK2"
abbrev pub persist_magic : ℕ
persist_magic = 0x53504B32

abbrev pub persist_lba : ℕ
persist_lba = 0

abbrev pub format_version : ℕ
format_version = 1

-- NAME_LEN
abbrev pub persist_name_len : ℕ
persist_name_len = 16

abbrev pub packed_bytes_per_weight : ℕ
packed_bytes_per_weight = (trits_per_weight + 4) / 5

-- ENTRY_LEN
abbrev pub persist_entry_len : ℕ
persist_entry_len = persist_name_len * 2 + packed_bytes_per_weight

abbrev pub header_len : ℕ
header_len = 8

abbrev pub max_synapses : ℕ
max_synapses = (512 - header_len) / persist_entry_len

pub data SaveError : Type 0 where
  -- "no synapses to save"
  no_synapses : SaveError
  -- "network not initialized", of save_weights_to_disk()
  not_initialized : SaveError
  -- "ATA error bit set"
  ata_error : SaveError

-- The field of a name in the zeroed sector.
unfoldable pub write_name : List ℕ → List ℕ
write_name name =
    let n = min (length name) persist_name_len in take n name ++ replicate (persist_name_len - n) 0

-- `position(..).unwrap_or(NAME_LEN)`
unfoldable pub name_end : List ℕ → ℕ
name_end slice = elim (position (λ b. b == 0) slice) [ none ↦ persist_name_len | some i ↦ i ]

-- The name in the field that the bytes begin with; "" when it is not UTF-8.
unfoldable pub read_name : List ℕ → List ℕ
read_name bytes =
    let slice = take persist_name_len bytes in
    let end = name_end slice in if is_utf8 (take end slice) then take end slice else []

module _ {C : Type 0} (wf : WeightFloats C) where
  abbrev pub Saved : Type 0
  Saved = List ℕ × List ℕ × C

  unfoldable pub save_entry : Saved → List ℕ
  save_entry (from, to, w) = write_name from ++ (write_name to ++ encode_weight wf w)

  unfoldable pub save_entries : List Saved → List ℕ
  save_entries [] = []
  save_entries (e ∷ es) = save_entry e ++ save_entries es

  unfoldable pub weights_sector : List Saved → List ℕ
  weights_sector entries =
      let count = min (length entries) max_synapses in
      let written =
        to_le_bytes 4 persist_magic
        ++ (format_version ∷ count ∷ trits_per_weight ∷ 0 ∷ save_entries (take count entries)) in
      written ++ replicate (512 - length written) 0

  unfoldable pub save_weights : List Saved → Disk → Result SaveError Disk
  save_weights [] d = err no_synapses
  save_weights (e ∷ es) d =
      let (written, d') = write_sector persist_lba (weights_sector (e ∷ es)) d in
      if written then ok d' else err ata_error

  unfoldable pub load_entry : List ℕ → Saved
  load_entry bytes = (
    read_name bytes,
    read_name (drop persist_name_len bytes),
    decode_weight wf (take packed_bytes_per_weight (drop (persist_name_len * 2) bytes)),
  )

  -- `n` entries from offset `off` on.
  unfoldable pub load_weight_entries : List ℕ → ℕ → ℕ → List Saved
  load_weight_entries buf off zero = []
  load_weight_entries buf off (suc n) =
      load_entry (drop off buf) ∷ load_weight_entries buf (off + persist_entry_len) n

  unfoldable pub parse_weights : List ℕ → Option (List Saved)
  parse_weights buf =
      if from_le_bytes 4 buf == persist_magic
      then some (load_weight_entries buf header_len (min (get_or buf 5 0) max_synapses))
      else none

  unfoldable pub load_weights : Disk → Option (List Saved)
  load_weights d = elim (read_sector persist_lba d) [ none ↦ none | some buf ↦ parse_weights buf ]
