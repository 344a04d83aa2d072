-- ===== src/Fs/Walk.antt =====
-- kernel/src/fs.rs, resolve_dir_lba() and resolve_table(): from a path to a directory table.
-- A path is its bytes; `/` is 47.
use spikeling_os.Base.{
  ℕ, ◌+◌, ◌==◌, leb, List, [], ◌∷◌, Option, none, some, Bool, true, false, not, ◌&&◌, if◌then◌else◌,
  bytes_eq,
}
use spikeling_os.Base.Result.{Result, ok, ◌>>=◌, ◌>>◌, guard, ok_or}
use spikeling_os.Ata.{Disk}
use spikeling_os.Fs.Error.{
  FsError, empty_component, path_too_deep, no_such_directory, file_not_directory, missing_name,
}
use spikeling_os.Fs.Table.{DirEntry, dir_lba, load_dir_at, name_bytes}

abbrev pub max_depth : ℕ
max_depth = 32

abbrev pub slash : ℕ
slash = b'/'

abbrev pub is_nil : List ℕ → Bool
is_nil [] = true
is_nil (x ∷ xs) = false

-- `path.split('/')`: the pieces between the slashes, never none.
unfoldable pub cons_head : ℕ → List (List ℕ) → List (List ℕ)
cons_head c [] = (c ∷ []) ∷ []
cons_head c (piece ∷ rest) = (c ∷ piece) ∷ rest

unfoldable pub split : List ℕ → List (List ℕ)
unfolding cons_head
split [] = [] ∷ []
split (c ∷ cs) = let rest = split cs in if c == slash then [] ∷ rest else cons_head c rest

-- `path.rsplit_once('/')`: what stands before and after the last slash.
unfoldable pub rsplit_once : List ℕ → Option (List ℕ × List ℕ)
rsplit_once [] = none
rsplit_once (c ∷ cs) = elim (rsplit_once cs) [
  | some (front, back) ↦ some (c ∷ front, back)
  | none ↦ if c == slash then some ([], cs) else none
]

-- `e.used && e.name == target`
abbrev pub is_named : List ℕ → DirEntry → Bool
is_named target e = e.used && bytes_eq e.name target

-- `table.iter().find(…)`
unfoldable pub find_entry : List ℕ → List DirEntry → Option DirEntry
find_entry target [] = none
find_entry target (e ∷ es) = if is_named target e then some e else find_entry target es

-- One component of the walk, from the table at `lba`.
unfoldable pub enter : Disk → ℕ → List ℕ → Result FsError ℕ
enter d lba comp = do
  entry ← ok_or (find_entry (name_bytes comp) (load_dir_at lba d)) (no_such_directory comp)
  guard entry.is_dir (file_not_directory comp)
  ok entry.start_lba

-- The loop over the components, the next one at number `depth`.
unfoldable pub walk : Disk → ℕ → ℕ → List (List ℕ) → Result FsError ℕ
walk d lba depth [] = ok lba
walk d lba depth (comp ∷ rest) = do
  guard (not (is_nil comp)) empty_component
  guard (not (leb max_depth depth)) path_too_deep
  next ← enter d lba comp
  walk d next (depth + 1) rest

unfoldable pub resolve_dir_lba : Disk → List ℕ → Result FsError ℕ
resolve_dir_lba d path = if is_nil path then ok dir_lba else walk d dir_lba 0 (split path)

-- The table in which the leaf lives, and the leaf's name.
unfoldable pub resolve_table : Disk → List ℕ → Result FsError (ℕ × List ℕ)
resolve_table d path = elim (rsplit_once path) [
  | none ↦ ok (dir_lba, path)
  | some (dir, name) ↦ do
    guard (not (is_nil name)) missing_name
    lba ← resolve_dir_lba d dir
    ok (lba, name)
]
