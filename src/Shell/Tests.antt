-- ===== src/Shell/Tests.antt =====
-- A disk whose root holds the directory `a`.
use spikeling_os.Base.{ℕ, ◌≡◌, refl, List, [], ◌∷◌, true, false, replicate, bytes_eq}
use spikeling_os.Base.Result.{ok, err}
use spikeling_os.Ata.{Disk, store}
use spikeling_os.Fs.Table.{DirEntry, table_sector}
use spikeling_os.Fs.Walk.{resolve_dir_lba}
use spikeling_os.Shell.{set_cwd, cwd_path, cd, cd_all, at_root}
use spikeling_os.Shell.Cd.{cd_all-path}

abbrev a_entry : DirEntry
a_entry = record {
  used = true;
  is_dir = true;
  name = 97 ∷ replicate 15 0;
  len = 0;
  start_lba = 2;
  sector_count = 1;
}

abbrev tree : Disk
tree =
    store 1 (table_sector (a_entry ∷ []))
      (record { sectors = λ a. replicate 512 0; read_error = λ a. false; write_error = λ a. false })

-- `cd a`, `cd ..`, `cd ..`, `cd a`
abbrev typed : List (List ℕ)
typed = (97 ∷ []) ∷ (46 ∷ 46 ∷ []) ∷ (46 ∷ 46 ∷ []) ∷ (97 ∷ []) ∷ []

root_refused : cd (46 ∷ 46 ∷ []) tree [] ≡ err at_root
unfolding cd bytes_eq
root_refused = refl

cd_all-path_example :
    (set_cwd (cwd_path (cd_all typed tree [])) ≡ cd_all typed tree [])
    × ((lba : ℕ) × (resolve_dir_lba tree (cwd_path (cd_all typed tree [])) ≡ ok lba))
cd_all-path_example = cd_all-path typed tree
