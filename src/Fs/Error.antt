-- ===== src/Fs/Error.antt =====
-- kernel/src/fs.rs: one constructor for each message that an operation returns as its `Err`.
-- A message quotes names; the constructors keep the one that tells failures apart.
use spikeling_os.Base.{ℕ, List}

pub data FsError : Type 0 where
  empty_component : FsError
  path_too_deep : FsError
  no_such_directory : List ℕ → FsError
  file_not_directory : List ℕ → FsError
  missing_name : FsError
  already_exists : FsError
  directory_full : FsError
  no_free_space : FsError
  is_a_directory : FsError
  no_such_file : FsError
  not_empty : FsError
  file_too_large : FsError
  ata_error : FsError
