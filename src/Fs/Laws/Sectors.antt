-- ===== src/Fs/Laws/Sectors.antt =====
-- The sector loops of write_file() and read_file() in kernel/src/fs.rs, on a drive that raises no
-- error: the sectors of a file are stored in place, and read back as the file's bytes.
use spikeling_os.Base.{
  ℕ, zero, suc, ◌+◌, ◌-◌, ◌*◌, ◌^◌, ◌≤◌, ◌<◌, ◌≡◌, refl, ap, ◌∙◌, sym, List, [], ◌++◌, some, arith,
  length, take, drop, replicate, append_assoc, take-append-drop, length-drop, length-take, take_all,
  take_exact, drop-drop, ap₂, append-nil, nil_of_length, length-replicate, dec_le, ℕ_discrete,
}
use spikeling_os.Base.Result.{ok}
use spikeling_os.Ata.{
  Disk, IsHealthy, store, write_sector_healthy, read_sector_healthy, store-IsHealthy,
  sectors-store_self, sectors-store_ne,
}
use spikeling_os.Fs.Table.{sector_size}
use spikeling_os.Fs.Pool.{file_data_start_lba}
use spikeling_os.Fs.Ops.{file_sector, write_sectors}
use spikeling_os.Fs.Read.{read_sectors}

-- What write_sectors() leaves behind.
pub record Stored (s : ℕ) (bytes : List ℕ) (i n : ℕ) (before after : Disk) : Type 0 where
  pub healthy : IsHealthy after
  pub below : (a : ℕ) → a < file_data_start_lba + s + i → after.sectors a ≡ before.sectors a
  pub above : (a : ℕ) → file_data_start_lba + s + i + n ≤ a → after.sectors a ≡ before.sectors a
  pub inside :
      (j : ℕ)
      → i ≤ j
      → j < i + n
      → after.sectors (file_data_start_lba + s + j) ≡ file_sector bytes j

write_sectors_step :
    (s : ℕ) (bytes : List ℕ) (i n : ℕ) (d : Disk)
    → IsHealthy d
    → file_data_start_lba + s + i < 2 ^ 28
    → write_sectors s bytes i (suc n) d
      ≡ write_sectors s bytes
          (i + 1)
          n
          (store (file_data_start_lba + s + i) (file_sector bytes i) d)
unfolding write_sectors
write_sectors_step s bytes i n d h k =
    ground (arith, write_sector_healthy (file_data_start_lba + s + i) (file_sector bytes i) d h k)

Stored-cons :
    (s : ℕ) (bytes : List ℕ) (i n : ℕ) (d after : Disk)
    → Stored s bytes (i + 1) n (store (file_data_start_lba + s + i) (file_sector bytes i) d) after
    → Stored s bytes i (suc n) d after
Stored-cons s bytes i n d after rest = record {
  healthy = rest.healthy;
  below = λ a p. rest.below a (omega arith) ∙ sectors-store_ne lba a part d (omega arith);
  above = λ a p. rest.above a (omega arith) ∙ sectors-store_ne lba a part d (omega arith);
  inside = λ j p q. elim (ℕ_discrete j i) [
    | yes e ↦ rw e (rest.below lba (omega arith) ∙ sectors-store_self lba part d)
    | no e ↦ rest.inside j (omega arith) (omega arith)
  ];
}
  where
    lba : ℕ
    lba = file_data_start_lba + s + i

    part : List ℕ
    part = file_sector bytes i

-- On a healthy drive the loop ends without an error and stores each sector in its place.
pub write_sectors-Stored :
    (s : ℕ) (bytes : List ℕ) (i n : ℕ) (d : Disk)
    → IsHealthy d
    → file_data_start_lba + s + i + n ≤ 2 ^ 28
    → (write_sectors s bytes i n d ≡ (ok tt, (write_sectors s bytes i n d).1))
      × Stored s bytes i n d (write_sectors s bytes i n d).1
unfolding write_sectors
write_sectors-Stored s bytes i zero d h k = (
  refl,
  record {
    healthy = h;
    below = λ a p. refl;
    above = λ a p. refl;
    inside = λ j p q. absurd (omega arith);
  },
)
write_sectors-Stored s bytes i (suc n) d h k =
    let lba = file_data_start_lba + s + i in
    let next = store lba (file_sector bytes i) d in
    let ih =
      write_sectors-Stored s bytes (i + 1) n next (store-IsHealthy lba (file_sector bytes i) d h)
        (omega arith) in
    rw (write_sectors_step s bytes i n d h (omega arith)) (ih.0, Stored-cons s bytes i n d _ ih.1)

-- The sectors of a file, from number `i` on, `n` of them.
pub file_sectors : List ℕ → ℕ → ℕ → List ℕ
file_sectors bytes i zero = []
file_sectors bytes i (suc n) = file_sector bytes i ++ file_sectors bytes (i + 1) n

pub read_sectors-file_sectors :
    (lba : ℕ) (bytes : List ℕ) (i n : ℕ) (d : Disk)
    → IsHealthy d
    → lba + i + n ≤ 2 ^ 28
    → ((j : ℕ) → i ≤ j → j < i + n → d.sectors (lba + j) ≡ file_sector bytes j)
    → read_sectors lba i n d ≡ some (file_sectors bytes i n)
unfolding read_sectors file_sectors
read_sectors-file_sectors lba bytes i zero d h k at = refl
read_sectors-file_sectors lba bytes i (suc n) d h k at = ground (
  arith,
  read_sectors-file_sectors lba bytes (i + 1) n d h (omega arith)
      (λ j p q. at j (omega arith) (omega arith)),
  read_sector_healthy (lba + i) d h (omega arith),
  at i (omega arith) (omega arith),
)

-- Enough sectors hold the rest of the file, followed by padding.
file_sectors-prefix :
    (bytes : List ℕ) (i n : ℕ)
    → length (drop (i * sector_size) bytes) ≤ n * sector_size
    → (pad : List ℕ) × (file_sectors bytes i n ≡ drop (i * sector_size) bytes ++ pad)
unfolding file_sectors
file_sectors-prefix bytes i zero h = ([], sym (append-nil rest ∙ nil_of_length rest (omega arith)))
  where
    rest : List ℕ
    rest = drop (i * sector_size) bytes
file_sectors-prefix bytes i (suc n) h =
    let rest = drop (i * sector_size) bytes in
    let next = drop ((i + 1) * sector_size) bytes in
    let later : next ≡ drop sector_size rest =
      ap (λ k. drop k bytes) {y = i * sector_size + sector_size} (omega arith)
      ∙ sym (drop-drop (i * sector_size) sector_size bytes) in
    let zeros : List ℕ = replicate (sector_size - length (take sector_size rest)) 0 in
    elim (dec_le sector_size (length rest)) [
      | no short ↦ (
        zeros ++ file_sectors bytes (i + 1) n,
        ap (λ t. (t ++ zeros) ++ file_sectors bytes (i + 1) n)
              (take_all sector_size rest (omega arith))
            ∙ append_assoc rest zeros (file_sectors bytes (i + 1) n),
      )
      | yes long ↦
          let (pad, e) =
            file_sectors-prefix bytes (i + 1) n
              (omega (arith, ap length later, length-drop sector_size rest)) in
          let none_left : zeros ≡ [] = nil_of_length zeros (
            omega (
              arith,
              length-take sector_size rest,
              length-replicate {A = ℕ} (sector_size - length (take sector_size rest)) 0,
            )) in
          (
            pad,
            ap₂ (λ t u. (take sector_size rest ++ t) ++ u) none_left (e ∙ ap (λ t. t ++ pad) later)
                ∙ ap (λ t. t ++ (drop sector_size rest ++ pad)) (append-nil (take sector_size rest))
                ∙ sym (append_assoc (take sector_size rest) (drop sector_size rest) pad)
                ∙ ap (λ t. t ++ pad) (take-append-drop sector_size rest),
          )
    ]

-- Cut to its length, what the sectors hold is the file.
pub take-file_sectors :
    (bytes : List ℕ) (n : ℕ)
    → length bytes ≤ n * sector_size
    → take (length bytes) (file_sectors bytes 0 n) ≡ bytes
take-file_sectors bytes n h =
    let (pad, e) = file_sectors-prefix bytes 0 n (omega arith) in
    ap (take (length bytes)) e ∙ take_exact (length bytes) bytes pad refl
