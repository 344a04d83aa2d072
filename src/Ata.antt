-- ===== src/Ata.antt =====
-- kernel/src/ata.rs, read_sector() and write_sector(), over an abstract drive. The port protocol
-- (busy and data-request polling, the 16-bit data port, the cache flush) belongs to the hardware:
-- the drive is a parameter, a store of sectors and the sectors on which it raises its error bit.
pub mod Persist
use spikeling_os.Base.{
  ◌<◌, ap, ℕ, ◌%◌, ◌^◌, ◌==◌, List, Option, none, some, Bool, true, false, if◌then◌else◌, ◌≡◌, ◌≢◌,
  arith,
}

-- The device: what each sector holds, and where a command ends with STATUS_ERR.
pub record Disk : Type 0 where
  pub sectors : ℕ → List ℕ
  pub read_error : ℕ → Bool
  pub write_error : ℕ → Bool

-- `select_and_setup` hands the drive the low 28 bits of the address.
abbrev pub drive_address : ℕ → ℕ
drive_address lba = lba % 2 ^ 28

-- `none` is `Err("ATA error bit set")`.
unfoldable pub read_sector : ℕ → Disk → Option (List ℕ)
read_sector lba d =
    if d.read_error (drive_address lba) then none else some (d.sectors (drive_address lba))

abbrev pub store : ℕ → List ℕ → Disk → Disk
store a bytes d = record d { sectors = λ b. if a == b then bytes else d.sectors b }

-- The error bit is polled before any data is sent, so a failed write leaves the sector as it was.
unfoldable pub write_sector : ℕ → List ℕ → Disk → Bool × Disk
write_sector lba bytes d =
    if d.write_error (drive_address lba)
    then (false, d)
    else (true, store (drive_address lba) bytes d)

-- A drive that raises no error.
pub record IsHealthy (d : Disk) : Type 0 where
  pub reads : (a : ℕ) → d.read_error a ≡ false
  pub writes : (a : ℕ) → d.write_error a ≡ false

pub write_sector-IsHealthy :
    (lba : ℕ) (bytes : List ℕ) (d : Disk) → IsHealthy d → IsHealthy (write_sector lba bytes d).1
unfolding write_sector
write_sector-IsHealthy lba bytes d h = record {
  reads = λ a. ground (arith, h.reads a);
  writes = λ a. ground (arith, h.writes a);
}

-- On such a drive a sector that is addressed with 28 bits is written, and no other.
pub write_sector_healthy :
    (lba : ℕ) (bytes : List ℕ) (d : Disk)
    → IsHealthy d
    → lba < 2 ^ 28
    → write_sector lba bytes d ≡ (true, store lba bytes d)
unfolding write_sector
write_sector_healthy lba bytes d h k =
    rw (h.writes (drive_address lba)) (ap (λ a. (true, store a bytes d)) (omega arith))

pub read_sector_healthy :
    (lba : ℕ) (d : Disk) → IsHealthy d → lba < 2 ^ 28 → read_sector lba d ≡ some (d.sectors lba)
unfolding read_sector
read_sector_healthy lba d h k =
    rw (h.reads (drive_address lba)) (ap (λ a. some (d.sectors a)) (omega arith))

pub store-IsHealthy :
    (a : ℕ) (bytes : List ℕ) (d : Disk) → IsHealthy d → IsHealthy (store a bytes d)
store-IsHealthy a bytes d h = record { reads = h.reads; writes = h.writes }

pub sectors-store_self : (a : ℕ) (bytes : List ℕ) (d : Disk) → (store a bytes d).sectors a ≡ bytes
sectors-store_self a bytes d = ground arith

pub sectors-store_ne :
    (a b : ℕ) (bytes : List ℕ) (d : Disk) → a ≢ b → (store a bytes d).sectors b ≡ d.sectors b
sectors-store_ne a b bytes d h = ground arith
