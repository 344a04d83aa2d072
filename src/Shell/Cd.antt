-- ===== src/Shell/Cd.antt =====
-- kernel/src/shell.rs: the current directory is one, whatever has been typed.
use spikeling_os.Base.{
  ℕ, ◌+◌, leb, ◌≡◌, refl, ap, sym, subst, ◌∙◌, List, [], ◌∷◌, ◌++◌, none, some, true, false, not,
  ◌||◌, inl, inr, bytes_eq, if◌then◌else◌,
}
use spikeling_os.Base.Branch.{if-either, result-either}
use spikeling_os.Base.Result.{Result, ok, err, bind-ok, guard, guard-ok, Result-cases}
use spikeling_os.Ata.{Disk}
use spikeling_os.Fs.Error.{empty_component, path_too_deep}
use spikeling_os.Fs.Table.{dir_lba}
use spikeling_os.Fs.Walk.{slash, is_nil, max_depth, enter, walk, resolve_dir_lba}
use spikeling_os.Fs.Read.{list, table_of}
use spikeling_os.Shell.{
  Cwd, join, cwd_path, resolve_arg, set_cwd, drop_last, pop, CdError, entered_at, cd, cd_all,
  at_root,
}
use spikeling_os.Shell.Join.{ArePlain, split-join, split-ArePlain, drop_last-last, ArePlain-front}

-- A current directory that the disk has.
record IsPlace (d : Disk) (cwd : Cwd) : Type 0 where
  plain : ArePlain cwd
  lba : ℕ
  walked : walk d dir_lba 0 cwd ≡ ok lba

is_nil-false : (s : List ℕ) → not (is_nil s) ≡ true → is_nil s ≡ false
is_nil-false [] h = cc
is_nil-false (b ∷ bs) h = refl

walk-enter :
    (d : Disk) (lba depth : ℕ) (comp : List ℕ) (rest : List (List ℕ)) (r : ℕ)
    → walk d lba depth (comp ∷ rest) ≡ ok r
    → (is_nil comp ≡ false)
      × ((next : ℕ) × (enter d lba comp ≡ ok next)
          × (walk d next (depth + 1) rest ≡ ok r)
          × ((ys : List (List ℕ)) → walk d lba depth (comp ∷ ys) ≡ walk d next (depth + 1) ys))
unfolding walk
walk-enter d lba depth comp rest r h =
    let (u1, g1, h1) = bind-ok (guard (not (is_nil comp)) empty_component) _ h in
    let (u2, g2, h2) = bind-ok (guard (not (leb max_depth depth)) path_too_deep) _ h1 in
    let (next, e, h3) = bind-ok (enter d lba comp) _ h2 in
    (
      is_nil-false comp (guard-ok (not (is_nil comp)) empty_component g1),
      (next, e, h3, λ ys. rw (g1, g2, e) refl),
    )

-- The walk to a directory passes through the one that holds it.
walk-front :
    (d : Disk) (xs : Cwd) (c : List ℕ) (lba depth r : ℕ)
    → walk d lba depth (xs ++ c ∷ []) ≡ ok r
    → (m : ℕ) × (walk d lba depth xs ≡ ok m)
unfolding walk
walk-front d [] c lba depth r h = (lba, refl)
walk-front d (x ∷ xs) c lba depth r h =
    let (filled, found) = walk-enter d lba depth x (xs ++ c ∷ []) r h in
    let (next, e, rest, same) = found in
    let (m, shorter) = walk-front d xs c next (depth + 1) r rest in (m, same xs ∙ shorter)

is_nil-join : (c : List ℕ) (cs : Cwd) → is_nil c ≡ false → is_nil (join (c ∷ cs)) ≡ false
unfolding join
is_nil-join [] cs h = cc
is_nil-join (b ∷ bs) [] h = refl
is_nil-join (b ∷ bs) (c' ∷ cs) h = refl

-- The path of a place: it leads there, and gives the components back.
IsPlace-path :
    (d : Disk) (cwd : Cwd)
    → IsPlace d cwd
    → (set_cwd (cwd_path cwd) ≡ cwd) × ((lba : ℕ) × (resolve_dir_lba d (cwd_path cwd) ≡ ok lba))
unfolding set_cwd cwd_path resolve_dir_lba join
IsPlace-path d [] p = (refl, (dir_lba, refl))
IsPlace-path d (c ∷ cs) p =
    let (filled, found) = walk-enter d dir_lba 0 c cs p.lba p.walked in
    let some_path = is_nil-join c cs filled in
    let parts = split-join c cs p.plain in
    (rw (some_path, parts) refl, (p.lba, rw (some_path, parts) p.walked))

-- A path that list() resolves is a place, once it is split.
set_cwd-IsPlace :
    (d : Disk) (path : List ℕ) (lba : ℕ)
    → table_of (if is_nil path then none else some path) d ≡ ok lba
    → IsPlace d (set_cwd path)
unfolding set_cwd resolve_dir_lba table_of walk
set_cwd-IsPlace d [] lba h = record { plain = tt; lba = dir_lba; walked = refl }
set_cwd-IsPlace d (b ∷ bs) lba h = record { plain = split-ArePlain (b ∷ bs); lba = lba; walked = h }

pop-IsPlace : (d : Disk) (c : List ℕ) (cs : Cwd) → IsPlace d (c ∷ cs) → IsPlace d (drop_last c cs)
pop-IsPlace d c cs p =
    let (l, same) = drop_last-last c cs in
    let (m, shorter) =
      walk-front d (drop_last c cs) l dir_lba 0 p.lba
        (ap (walk d dir_lba 0) (sym same) ∙ p.walked) in
    record {
      plain = ArePlain-front (drop_last c cs) l (subst ArePlain same p.plain);
      lba = m;
      walked = shorter;
    }

root-IsPlace : (d : Disk) → IsPlace d []
unfolding walk
root-IsPlace d = record { plain = tt; lba = dir_lba; walked = refl }

abbrev Leads : Disk → Result CdError Cwd → Type 0
Leads d (ok cwd) = IsPlace d cwd
Leads d (err e) = Unit {0}

entered-Leads :
    (d : Disk) (path : List ℕ)
    → Leads d (entered_at path (list (if is_nil path then none else some path) d))
unfolding list
entered-Leads d path = elim (Result-cases (table_of (if is_nil path then none else some path) d)) [
  | inl (lba, e) ↦ rw e (set_cwd-IsPlace d path lba e)
  | inr (x, e) ↦ rw e tt
]

pop-Leads :
    (d : Disk) (cwd : Cwd)
    → IsPlace d cwd
    → Leads d (elim (pop cwd) [ none ↦ err at_root | some front ↦ ok front ])
pop-Leads d [] p = tt
pop-Leads d (c ∷ cs) p = pop-IsPlace d c cs p

cd-Leads : (target : List ℕ) (d : Disk) (cwd : Cwd) → IsPlace d cwd → Leads d (cd target d cwd)
unfolding cd
cd-Leads target d cwd p =
    if-either (Leads d) (bytes_eq target (b'.' ∷ b'.' ∷ [])) (λ e. pop-Leads d cwd p)
      (λ e.
        if-either (Leads d) (is_nil target || bytes_eq target (slash ∷ [])) (λ e'. root-IsPlace d)
          (λ e'. entered-Leads d (resolve_arg target cwd)))

cd_all-IsPlace :
    (targets : List (List ℕ)) (d : Disk) (cwd : Cwd)
    → IsPlace d cwd
    → IsPlace d (cd_all targets d cwd)
unfolding cd_all
cd_all-IsPlace [] d cwd p = p
cd_all-IsPlace (target ∷ targets) d cwd p =
    result-either (IsPlace d) (cd target d cwd)
      (λ cwd' e. cd_all-IsPlace targets d cwd' (subst (Leads d) e (cd-Leads target d cwd p)))
      (λ x e. cd_all-IsPlace targets d cwd p)

-- Whatever commands `cd` are typed from the root on, with any arguments and failing or not, the current
-- directory is one that the disk has, as long as the disk stays as it is: its path leads to a
-- directory table, and splits into just the components that are stored. So `cd ..`, which looks at
-- no disk, is safe.
pub cd_all-path :
    (targets : List (List ℕ)) (d : Disk)
    → (set_cwd (cwd_path (cd_all targets d [])) ≡ cd_all targets d [])
      × ((lba : ℕ) × (resolve_dir_lba d (cwd_path (cd_all targets d [])) ≡ ok lba))
cd_all-path targets d =
    IsPlace-path d (cd_all targets d []) (cd_all-IsPlace targets d [] (root-IsPlace d))
