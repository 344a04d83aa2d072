-- ===== src/Fs/Laws/Lookup.antt =====
-- How the operations of kernel/src/fs.rs find a name in a table: the entry that write_file() chooses
-- is the one that a later lookup meets.
use spikeling_os.Base.{
  ℕ, zero, suc, ◌<◌, ◌≡◌, refl, List, [], ◌∷◌, some, true, false, arith, length, get_elem?, set,
  position, position-some, position-first, position-none, get_elem?-lt, Option-cases, inl, inr,
}
use spikeling_os.Base.Result.{ok}
use spikeling_os.Fs.Table.{DirEntry}
use spikeling_os.Fs.Walk.{is_named, find_entry}
use spikeling_os.Fs.Ops.{choose_slot, is_free}

-- No entry before index `i` has the name.
abbrev pub IsFirst : List ℕ → List DirEntry → ℕ → Type 0
IsFirst target entries i =
    (j : ℕ) (e : DirEntry) → j < i → get_elem? entries j ≡ some e → is_named target e ≡ false

pub find_entry-set :
    (target : List ℕ) (entries : List DirEntry) (i : ℕ) (e : DirEntry)
    → i < length entries
    → is_named target e ≡ true
    → IsFirst target entries i
    → find_entry target (set entries i e) ≡ some e
unfolding find_entry
find_entry-set target [] i e h p first = elim h [ ]
find_entry-set target (x ∷ xs) zero e h p first = ground arith
find_entry-set target (x ∷ xs) (suc i) e h p first = ground (
  arith,
  first 0 x (omega arith) refl,
  find_entry-set target xs i e (omega arith) p (λ j a q g. first (suc j) a (omega arith) g),
)

-- The slot that write_file() chooses is in the table, and no earlier entry has the name.
pub choose_slot-IsFirst :
    (target : List ℕ) (entries : List DirEntry) (i : ℕ)
    → choose_slot target entries ≡ ok i
    → (i < length entries) × IsFirst target entries i
unfolding choose_slot
choose_slot-IsFirst target entries i h = elim (Option-cases (position (is_named target) entries)) [
  | inr (k, e) ↦
      let same : k ≡ i = ground arith in
      let (a, at, named) = position-some (is_named target) entries k e in
      (
        rw same at (get_elem?-lt entries k at),
        λ j b q g. position-first (is_named target) entries k j e (rw (same) q) g,
      )
  | inl e ↦
      let free : position is_free entries ≡ some i = ground arith in
      let (a, at, f) = position-some is_free entries i free in
      (get_elem?-lt entries i at, λ j b q g. position-none (is_named target) entries j e g)
]
