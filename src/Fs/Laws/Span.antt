-- ===== src/Fs/Laws/Span.antt =====
-- find_free_span() of kernel/src/fs.rs: what it returns is free, inside the pool, and the first
-- such run; it gives up only where there is none.
use spikeling_os.Base.{
  ℕ, zero, suc, ◌+◌, ◌-◌, ◌≤◌, ◌<◌, ◌≡◌, ◌⊎◌, List, [], ◌∷◌, none, some, true, false, arith, inl,
  inr, Bool-cases, ℕ_discrete,
}
use spikeling_os.Fs.Pool.{
  Range, file_data_start_lba, num_data_sectors, any_overlap, find_span_from, find_free_span,
}

-- A run of sectors and an occupied range have no sector in common.
abbrev pub IsDisjoint : ℕ → ℕ → Range → Type 0
IsDisjoint start needed (occ_start, occ_count) =
    (start + needed ≤ occ_start) ⊎ (occ_start + occ_count ≤ start)

-- The run at pool index `start` is free.
abbrev pub IsFree : List Range → ℕ → ℕ → Type 0
IsFree [] needed start = Unit {0}
IsFree (r ∷ rs) needed start =
    IsDisjoint (file_data_start_lba + start) needed r × IsFree rs needed start

any_overlap-false :
    (rs : List Range) (start needed : ℕ)
    → any_overlap (file_data_start_lba + start) needed rs ≡ false
    → IsFree rs needed start
unfolding any_overlap
any_overlap-false [] start needed h = tt
any_overlap-false ((a, m) ∷ rs) start needed h =
    (ground arith, any_overlap-false rs start needed (ground arith))

any_overlap-true :
    (rs : List Range) (start needed : ℕ)
    → any_overlap (file_data_start_lba + start) needed rs ≡ true
    → ¬ IsFree rs needed start
unfolding any_overlap
any_overlap-true [] start needed h f = ground arith
any_overlap-true ((a, m) ∷ rs) start needed h f = ground (arith, any_overlap-true rs start needed)

find_span_from-some :
    (rs : List Range) (needed start left s : ℕ)
    → find_span_from rs needed start left ≡ some s
    → (start ≤ s)
      × (s < start + left)
      × IsFree rs needed s
      × ((t : ℕ) → start ≤ t → t < s → ¬ IsFree rs needed t)
unfolding find_span_from
find_span_from-some rs needed start zero s e = ground arith
find_span_from-some rs needed start (suc left) s e =
    elim (Bool-cases (any_overlap (file_data_start_lba + start) needed rs)) [
      | inl busy ↦
          let e' : find_span_from rs needed (start + 1) left ≡ some s = ground arith in
          let ih = find_span_from-some rs needed (start + 1) left s e' in
          (
            omega (arith, ih.0),
            omega (arith, ih.1),
            ih.2,
            λ t lo hi. elim (ℕ_discrete t start) [
              | yes p ↦ rw p (any_overlap-true rs start needed busy)
              | no p ↦ ih.3 t (omega arith) hi
            ],
          )
      | inr free ↦
          let e' : start ≡ s = ground arith in
          (
            omega arith,
            omega arith,
            rw e' at (any_overlap-false rs start needed free),
            λ t lo hi. absurd (omega arith),
          )
    ]

find_span_from-none :
    (rs : List Range) (needed start left : ℕ)
    → find_span_from rs needed start left ≡ none
    → (t : ℕ) → start ≤ t
    → t < start + left
    → ¬ IsFree rs needed t
unfolding find_span_from
find_span_from-none rs needed start zero e t h k = absurd (omega arith)
find_span_from-none rs needed start (suc left) e t h k =
    elim (Bool-cases (any_overlap (file_data_start_lba + start) needed rs)) [
      | inl busy ↦
          let e' : find_span_from rs needed (start + 1) left ≡ none = ground arith in
          elim (ℕ_discrete t start) [
            | yes p ↦ rw p (any_overlap-true rs start needed busy)
            | no p ↦ find_span_from-none rs needed (start + 1) left e' t (omega arith) (omega arith)
          ]
      | inr free ↦ absurd (ground arith)
    ]

pub find_free_span_sound :
    (rs : List Range) (needed s : ℕ)
    → needed ≤ num_data_sectors
    → find_free_span rs needed ≡ some s
    → (s + needed ≤ num_data_sectors)
      × IsFree rs needed s
      × ((t : ℕ) → t < s → ¬ IsFree rs needed t)
unfolding find_free_span
find_free_span_sound rs needed s fits e =
    let found = find_span_from-some rs needed 0 (num_data_sectors - needed + 1) s e in
    (omega (arith, found.1), found.2, λ t hi. found.3 t (omega arith) hi)

find_free_span_complete :
    (rs : List Range) (needed : ℕ)
    → find_free_span rs needed ≡ none
    → (t : ℕ) → t + needed ≤ num_data_sectors
    → ¬ IsFree rs needed t
unfolding find_free_span
find_free_span_complete rs needed e t fits =
    find_span_from-none rs needed 0 (num_data_sectors - needed + 1) e t (omega arith) (omega arith)

-- A run, no longer than the pool, that find_free_span() returns lies in the pool and shares no sector with an
-- occupied range, and no run that starts earlier does so; and it fails only when no run of that length
-- in the pool is free.
pub find_free_span_lem :
    (rs : List Range) (needed : ℕ)
    → needed ≤ num_data_sectors
    → ((s : ℕ)
        → find_free_span rs needed ≡ some s
        → (s + needed ≤ num_data_sectors)
          × IsFree rs needed s
          × ((t : ℕ) → t < s → ¬ IsFree rs needed t))
      × (find_free_span rs needed ≡ none
          → (t : ℕ) → t + needed ≤ num_data_sectors
          → ¬ IsFree rs needed t)
find_free_span_lem rs needed fits =
    ((λ s. find_free_span_sound rs needed s fits), find_free_span_complete rs needed)
