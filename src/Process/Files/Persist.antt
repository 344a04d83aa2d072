-- ===== src/Process/Files/Persist.antt =====
-- kernel/src/process.rs, close_fd() and open_file(): what a process writes to a file is what the
-- next process to open it finds.
use spikeling_os.Base.{
  is_none, subst, ℕ, ◌≡◌, refl, ap, sym, ◌∙◌, List, none, some, Bool, true, false, arith,
  Option-cases, inl, inr, position, position-some, get_elem?-set_self, get_elem?-lt,
}
use spikeling_os.Base.Result.{Result, ok, err}
use spikeling_os.Ata.{IsHealthy}
use spikeling_os.Fs.Error.{FsError}
use spikeling_os.Fs.Table.Fits.{IsSectored}
use spikeling_os.Fs.Walk.{rsplit_once}
use spikeling_os.Fs.Ops.{write_file}
use spikeling_os.Fs.Read.{read_file}
use spikeling_os.Fs.Laws.WriteRead.{write_file-read_file}
use spikeling_os.Process.{
  Place, static_slot, table_slot, put_place, locate, OpenFile, FdEntry, file, Process, Kernel,
  find_process, put_process,
}
use spikeling_os.Process.Fds.{entry_of, with_fd, install, open_file, lookup_fd, initial_buffer}
use spikeling_os.Process.Ends.{persist, release_entry, close_fd}
use spikeling_os.Process.Refs.Lookups.{
  close_fd-entry, with_process_mut-some, with_process_mut-none, find_process-put_process,
}

place-disk : (place : Place) (p : Process) (k : Kernel) → (put_place place p k).disk ≡ k.disk
unfolding put_place
place-disk (static_slot i) p k = refl
place-disk (table_slot i) p k = refl

put_process-disk : (id : ℕ) (p : Process) (k : Kernel) → (put_process id p k).disk ≡ k.disk
unfolding put_process
put_process-disk id p k = elim (Option-cases (locate id)) [
  | inl e ↦ rw (e, put_process) refl
  | inr (place, e) ↦ rw (e, put_process) (place-disk place p k)
]

was_written :
    (r : Result FsError (Unit {0}))
    → some (elim r as (λ _. Bool) [ ok u ↦ true | err e ↦ false ]) ≡ some true
    → r ≡ ok tt
was_written (ok u) h = refl
was_written (err e) h = cc

persist-read_file :
    (f : OpenFile) (k : Kernel)
    → f.dirty ≡ true
    → IsHealthy k.disk
    → IsSectored k.disk
    → rsplit_once f.path ≡ none
    → (persist f k).0 ≡ some true
    → read_file f.path (persist f k).1.disk ≡ ok f.buffer
unfolding persist
persist-read_file f k dirty h sectored root done =
    let (result, d') = write_file f.path f.buffer k.disk in
    let answered : result ≡ ok tt = was_written result (rw dirty at done) in
    rw dirty
      (write_file-read_file f.path f.buffer k.disk d' h sectored root (ap (λ r. (r, d')) answered))

-- On a drive that raises no error, once close_fd() has answered `Some(true)` for a dirty file in the
-- root directory, read_file() returns the buffer that the descriptor held.
pub close_fd-read_file :
    (id fd : ℕ) (k : Kernel) (p : Process) (f : OpenFile)
    → find_process id k ≡ some p
    → entry_of p fd ≡ some (file f)
    → f.dirty ≡ true
    → IsHealthy k.disk
    → IsSectored k.disk
    → rsplit_once f.path ≡ none
    → (close_fd id fd k).0 ≡ some true
    → read_file f.path (close_fd id fd k).1.disk ≡ ok f.buffer
unfolding release_entry
close_fd-read_file id fd k p f live at dirty h sectored root done =
    let k1 = put_process id (with_fd p fd none) k in
    let step = close_fd-entry id fd k live at in
    let same = put_process-disk id (with_fd p fd none) k in
    rw step (
      persist-read_file f k1 dirty (subst IsHealthy (sym same) h)
        (subst IsSectored (sym same) sectored) root (sym (ap (λ r. r.0) step) ∙ done))

-- An entry that install() reports as stored is where it says.
entry_of-install :
    (e : FdEntry) (p : Process) (slot : ℕ)
    → (install e p).0 ≡ some slot
    → entry_of (install e p).1 slot ≡ some e
unfolding install
entry_of-install e p slot h = elim (Option-cases (position is_none p.fds)) [
  | inl q ↦ absurd (ground arith)
  | inr (i, q) ↦
      let (o, at, free) = position-some is_none p.fds i q in
      rw (q, install)
        (ground (arith, get_elem?-set_self p.fds i (some e) (get_elem?-lt p.fds i at)))
]

-- A path that open_file() opens as descriptor `slot`, and that read_file() can read, is held there as
-- a file with those bytes, the cursor at its start, and not dirty.
pub lookup_fd-open_file :
    (id slot : ℕ) (path bytes : List ℕ) (k : Kernel)
    → (open_file id path k).0 ≡ some slot
    → read_file path k.disk ≡ ok bytes
    → lookup_fd id slot (open_file id path k).1
      ≡ some (file (record { path = path; buffer = bytes; pos = 0; dirty = false }))
unfolding open_file lookup_fd
lookup_fd-open_file id slot path bytes k opened found = elim (Option-cases (find_process id k)) [
  | inl q ↦ absurd (ground (arith, with_process_mut-none id (install (file opened_file)) k q))
  | inr (p, q) ↦
      let step = with_process_mut-some id (install (file opened_file)) k q in
      let p' = (install (file opened_file) p).1 in
      let there = entry_of-install (file opened_file) p slot (sym (ap (λ r. r.0) step) ∙ opened) in
      rw (ap (λ r. r.1) step, lookup_fd, find_process-put_process id p' k q)
        (there
          ∙ ap (λ b. some (file (record { path = path; buffer = b; pos = 0; dirty = false })))
              buffer)
]
  where
    opened_file : OpenFile
    opened_file = record {
      path = path;
      buffer = initial_buffer path k.disk;
      pos = 0;
      dirty = false;
    }

    buffer : initial_buffer path k.disk ≡ bytes
    buffer = rw (initial_buffer, found) refl

-- On a drive that raises no error, when close_fd() answers `Some(true)` for a dirty file of the root
-- directory and any live process then opens the same path, the new descriptor holds the bytes that
-- the closed one held, with the cursor at their start.
pub close_fd-open_file :
    (id fd other slot : ℕ) (k : Kernel) (p : Process) (f : OpenFile)
    → find_process id k ≡ some p
    → entry_of p fd ≡ some (file f)
    → f.dirty ≡ true
    → IsHealthy k.disk
    → IsSectored k.disk
    → rsplit_once f.path ≡ none
    → (close_fd id fd k).0 ≡ some true
    → (open_file other f.path (close_fd id fd k).1).0 ≡ some slot
    → lookup_fd other slot (open_file other f.path (close_fd id fd k).1).1
      ≡ some (file (record { path = f.path; buffer = f.buffer; pos = 0; dirty = false }))
close_fd-open_file id fd other slot k p f live at dirty h sectored root closed opened =
    lookup_fd-open_file other slot f.path f.buffer (close_fd id fd k).1 opened
      (close_fd-read_file id fd k p f live at dirty h sectored root closed)
