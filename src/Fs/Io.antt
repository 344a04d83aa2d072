-- ===== src/Fs/Io.antt =====
-- The operations of kernel/src/fs.rs change the disk and may fail: a result beside the new disk.
-- An error leaves what was written before it on the disk.
use spikeling_os.Base.{Option, Bool}
use spikeling_os.Base.Result.{Result, ok, err, guard, ok_or}
use spikeling_os.Ata.{Disk}
use spikeling_os.Fs.Error.{FsError, ata_error}

abbrev pub Io : Type 0 → Type 0
Io A = Disk → Result FsError A × Disk

infixl 5 ◌>>=◌ ◌>>◌
abbrev pub ◌>>=◌ : {A B : Type 0} → Io A → (A → Io B) → Io B
◌>>=◌ m f d = let (r, d') = m d in elim r [ ok a ↦ f a d' | err e ↦ (err e, d') ]

abbrev pub ◌>>◌ : {B : Type 0} → Io (Unit {0}) → Io B → Io B
m >> k = m >>= λ _. k

abbrev pub done : {A : Type 0} → A → Io A
done a d = (ok a, d)

-- A value or an error computed from the disk as it is.
abbrev pub lift : {A : Type 0} → (Disk → Result FsError A) → Io A
lift f d = (f d, d)

abbrev pub gets : {A : Type 0} → (Disk → A) → Io A
gets f d = (ok (f d), d)

abbrev pub check : Bool → FsError → Io (Unit {0})
check b e = lift (λ _. guard b e)

abbrev pub require : {A : Type 0} → Option A → FsError → Io A
require o e = lift (λ _. ok_or o e)

-- `write(…).map_err(…)?`
abbrev pub save : (Disk → Bool × Disk) → Io (Unit {0})
save w d = let (done, d') = w d in (guard done ata_error, d')
