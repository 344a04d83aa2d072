-- ===== src/Process/Refs/Totals.antt =====
-- How many descriptors of all live processes name one end of a pipe.
use spikeling_os.Base.{
  held, ℕ, zero, suc, ◌+◌, ◌*◌, ◌≤◌, ◌≡◌, ◌≢◌, refl, List, [], ◌∷◌, Option, none, some, Bool, true,
  false, ◌==◌, arith, length, get_elem?, set,
}
use spikeling_os.Process.{
  FdEntry, file, pipe_read, pipe_write, Process, Kernel, max_open_files, num_statics, max_processes,
}

pub data End : Type 0 where
  reading writing : End

abbrev pub bit : Bool → ℕ
bit true = 1
bit false = 0

-- 1 if the entry is that end of the pipe, else 0.
abbrev pub names : End → ℕ → FdEntry → ℕ
names reading idx (pipe_read j) = bit (j == idx)
names writing idx (pipe_write j) = bit (j == idx)
names _ idx _ = 0

pub names-le_one : (end : End) (idx : ℕ) (e : FdEntry) → names end idx e ≤ 1
names-le_one reading idx (file f) = omega arith
names-le_one reading idx (pipe_read j) = ground arith
names-le_one reading idx (pipe_write j) = omega arith
names-le_one writing idx (file f) = omega arith
names-le_one writing idx (pipe_read j) = omega arith
names-le_one writing idx (pipe_write j) = ground arith

-- An entry names no pipe but its own.
pub names_ne_read : (end : End) (idx i : ℕ) → idx ≢ i → names end idx (pipe_read i) ≡ 0
names_ne_read reading idx i h = ground arith
names_ne_read writing idx i h = refl

pub names_ne_write : (end : End) (idx i : ℕ) → idx ≢ i → names end idx (pipe_write i) ≡ 0
names_ne_write reading idx i h = refl
names_ne_write writing idx i h = ground arith

module _ (end : End) (idx : ℕ) where
  abbrev pub slot_total : Option FdEntry → ℕ
  slot_total none = 0
  slot_total (some e) = names end idx e

  abbrev pub fd_total : List (Option FdEntry) → ℕ
  fd_total [] = 0
  fd_total (o ∷ os) = slot_total o + fd_total os

  abbrev pub proc_total : Option Process → ℕ
  proc_total none = 0
  proc_total (some p) = fd_total p.fds

  abbrev pub procs_total : List (Option Process) → ℕ
  procs_total [] = 0
  procs_total (o ∷ os) = proc_total o + procs_total os

  abbrev pub kernel_total : Kernel → ℕ
  kernel_total k = procs_total k.statics + procs_total k.process_table

-- Each live process has its four descriptors.
abbrev pub HasFds : List (Option Process) → Type 0
HasFds [] = Unit {0}
HasFds (none ∷ os) = HasFds os
HasFds (some p ∷ os) = (length p.fds ≡ max_open_files) × HasFds os

pub record IsShaped (k : Kernel) : Type 0 where
  pub statics_len : length k.statics ≡ num_statics
  pub table_len : length k.process_table ≡ max_processes
  pub statics_fds : HasFds k.statics
  pub table_fds : HasFds k.process_table

module _ (end : End) (idx : ℕ) where
  pub fd_total-set :
      (os : List (Option FdEntry)) (i : ℕ) (new : Option FdEntry) {old : Option FdEntry}
      → get_elem? os i ≡ some old
      → fd_total end idx (set os i new) + slot_total end idx old
        ≡ fd_total end idx os + slot_total end idx new
  fd_total-set [] i new e = cc
  fd_total-set (o ∷ os) zero new {old} e =
      let same : o ≡ old = ground arith in rw same (omega arith)
  fd_total-set (o ∷ os) (suc i) new e = omega (arith, fd_total-set os i new e)

  -- Storing an entry adds it at most.
  pub fd_total-set-le :
      (os : List (Option FdEntry)) (i : ℕ) (e : FdEntry)
      → fd_total end idx (set os i (some e)) ≤ fd_total end idx os + names end idx e
  fd_total-set-le [] i e = omega arith
  fd_total-set-le (o ∷ os) zero e = omega arith
  fd_total-set-le (o ∷ os) (suc i) e = omega (arith, fd_total-set-le os i e)

  pub fd_total-clear :
      (os : List (Option FdEntry)) (i : ℕ) → fd_total end idx (set os i none) ≤ fd_total end idx os
  fd_total-clear [] i = omega arith
  fd_total-clear (o ∷ os) zero = omega arith
  fd_total-clear (o ∷ os) (suc i) = omega (arith, fd_total-clear os i)

  pub procs_total-set :
      (os : List (Option Process)) (i : ℕ) (new : Option Process) {old : Option Process}
      → get_elem? os i ≡ some old
      → procs_total end idx (set os i new) + proc_total end idx old
        ≡ procs_total end idx os + proc_total end idx new
  procs_total-set [] i new e = cc
  procs_total-set (o ∷ os) zero new {old} e =
      let same : o ≡ old = ground arith in rw same (omega arith)
  procs_total-set (o ∷ os) (suc i) new e = omega (arith, procs_total-set os i new e)

  fd_total-le-length : (os : List (Option FdEntry)) → fd_total end idx os ≤ length os
  fd_total-le-length [] = omega arith
  fd_total-le-length (none ∷ os) = omega (arith, fd_total-le-length os)
  fd_total-le-length (some e ∷ os) = omega (arith, fd_total-le-length os, names-le_one end idx e)

  procs_total-le :
      (os : List (Option Process)) → HasFds os → procs_total end idx os ≤ length os * max_open_files
  procs_total-le [] h = omega arith
  procs_total-le (none ∷ os) h = omega (arith, procs_total-le os h)
  procs_total-le (some p ∷ os) h =
      omega (arith, procs_total-le os h.1, fd_total-le-length p.fds, h.0)

  -- There are at most 44 descriptors.
  pub kernel_total-le : (k : Kernel) → IsShaped k → kernel_total end idx k ≤ 44
  kernel_total-le k s = omega (
    arith,
    procs_total-le k.statics s.statics_fds,
    procs_total-le k.process_table s.table_fds,
    s.statics_len,
    s.table_len,
  )

  -- What a held slot is worth is part of the total.
  pub slot_total-le :
      (os : List (Option FdEntry)) (i : ℕ) {e : FdEntry}
      → held os i ≡ some e
      → names end idx e ≤ fd_total end idx os
  slot_total-le [] i h = ground arith
  slot_total-le (o ∷ os) zero {e} h = let same : o ≡ some e = ground arith in rw same (omega arith)
  slot_total-le (o ∷ os) (suc i) h = omega (arith, slot_total-le os i h)

-- A slot that holds something is in the list.
pub get_elem?-held {ℓ} :
    {A : Type ℓ} (xs : List (Option A)) (i : ℕ) {a : A}
    → held xs i ≡ some a
    → get_elem? xs i ≡ some (some a)
get_elem?-held xs i h = ground arith
