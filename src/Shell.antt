-- ===== src/Shell.antt =====
-- kernel/src/shell.rs: the current directory. An argument is what is left of the command once its name is
-- cut off and it is trimmed; text is its bytes.
pub mod Join
pub mod Cd
mod Tests
use spikeling_os.Base.{
  ℕ, ◌==◌, List, [], ◌∷◌, ◌++◌, Option, none, some, Bool, true, false, ◌||◌, if◌then◌else◌,
  bytes_eq,
}
use spikeling_os.Base.Result.{Result, ok, err}
use spikeling_os.Ata.{Disk}
use spikeling_os.Fs.Error.{FsError}
use spikeling_os.Fs.Walk.{slash, is_nil, split}
use spikeling_os.Fs.Read.{list}

-- `CWD`: the components of the path from the root.
abbrev pub Cwd : Type 0
Cwd = List (List ℕ)

-- `join("/")`
unfoldable pub join : Cwd → List ℕ
join [] = []
join (c ∷ []) = c
join (c ∷ c' ∷ cs) = c ++ slash ∷ join (c' ∷ cs)

unfoldable pub cwd_path : Cwd → List ℕ
cwd_path cwd = join cwd

unfoldable pub resolve_arg : List ℕ → Cwd → List ℕ
resolve_arg [] cwd = if is_nil (cwd_path cwd) then [] else cwd_path cwd ++ slash ∷ []
resolve_arg (c ∷ rest) cwd =
    if c == slash
    then rest
    else if is_nil (cwd_path cwd)
    then c ∷ rest
    else cwd_path cwd ++ slash ∷ (c ∷ rest)

-- What set_cwd() stores.
unfoldable pub set_cwd : List ℕ → Cwd
set_cwd resolved = if is_nil resolved then [] else split resolved

unfoldable pub prompt_string : Cwd → List ℕ
prompt_string cwd =
    if is_nil (cwd_path cwd)
    then slash ∷ b'>' ∷ b' ' ∷ []
    else slash ∷ (cwd_path cwd ++ (b'>' ∷ b' ' ∷ []))

-- A list but for its last element.
unfoldable pub drop_last : List ℕ → Cwd → Cwd
drop_last c [] = []
drop_last c (c' ∷ cs) = c ∷ drop_last c' cs

-- `pop()`, with what is left.
abbrev pub pop : Cwd → Option Cwd
pop [] = none
pop (c ∷ cs) = some (drop_last c cs)

pub data CdError : Type 0 where
  -- "already at root"
  at_root : CdError
  cd_failed : FsError → CdError

abbrev pub entered_at : List ℕ → Result FsError (List (List ℕ × Bool × ℕ)) → Result CdError Cwd
entered_at resolved (ok entries) = ok (set_cwd resolved)
entered_at resolved (err e) = err (cd_failed e)

-- The command `cd`; on an error the current directory stays.
unfoldable pub cd : List ℕ → Disk → Cwd → Result CdError Cwd
cd target d cwd =
    if bytes_eq target (b'.' ∷ b'.' ∷ [])
    then elim (pop cwd) [ none ↦ err at_root | some front ↦ ok front ]
    else if is_nil target || bytes_eq target (slash ∷ [])
    then ok []
    else let resolved = resolve_arg target cwd in
      entered_at resolved (list (if is_nil resolved then none else some resolved) d)

-- The commands typed one after the other.
unfoldable pub cd_all : List (List ℕ) → Disk → Cwd → Cwd
cd_all [] d cwd = cwd
cd_all (target ∷ targets) d cwd = elim (cd target d cwd) [
  | ok cwd' ↦ cd_all targets d cwd'
  | err e ↦ cd_all targets d cwd
]
