-- ===== src/Shell/Join.antt =====
-- The paths of kernel/src/shell.rs: joining components by slashes and splitting at them.
use spikeling_os.Base.{ℕ, ◌==◌, ◌≡◌, refl, ap, ap₂, ◌∙◌, List, [], ◌∷◌, ◌++◌, false, arith}
use spikeling_os.Base.Branch.{if-either}
use spikeling_os.Fs.Walk.{slash, split, cons_head}
use spikeling_os.Shell.{Cwd, join, drop_last}

-- A component: no slash in it.
abbrev pub IsPlain : List ℕ → Type 0
IsPlain [] = Unit {0}
IsPlain (b ∷ bs) = ((b == slash) ≡ false) × IsPlain bs

abbrev pub ArePlain : Cwd → Type 0
ArePlain [] = Unit {0}
ArePlain (c ∷ cs) = IsPlain c × ArePlain cs

split-plain : (c : List ℕ) → IsPlain c → split c ≡ c ∷ []
unfolding split
split-plain [] p = refl
split-plain (b ∷ bs) p = rw (p.0, split-plain bs p.1) refl

split-slash : (c rest : List ℕ) → IsPlain c → split (c ++ slash ∷ rest) ≡ c ∷ split rest
unfolding split
split-slash [] rest p = refl
split-slash (b ∷ bs) rest p = rw (p.0, split-slash bs rest p.1) refl

pub split-join : (c : List ℕ) (cs : Cwd) → ArePlain (c ∷ cs) → split (join (c ∷ cs)) ≡ c ∷ cs
unfolding join
split-join c [] p = split-plain c p.0
split-join c (c' ∷ cs) p =
    split-slash c (join (c' ∷ cs)) p.0 ∙ ap (λ r. c ∷ r) (split-join c' cs p.1)

cons_head-ArePlain :
    (b : ℕ) (pieces : Cwd) → (b == slash) ≡ false → ArePlain pieces → ArePlain (cons_head b pieces)
unfolding cons_head
cons_head-ArePlain b [] e p = ((e, tt), tt)
cons_head-ArePlain b (c ∷ cs) e p = ((e, p.0), p.1)

-- No piece of a split has a slash.
pub split-ArePlain : (s : List ℕ) → ArePlain (split s)
unfolding split
split-ArePlain [] = (tt, tt)
split-ArePlain (b ∷ bs) =
    if-either ArePlain (b == slash) (λ e. (tt, split-ArePlain bs))
      (λ e. cons_head-ArePlain b (split bs) e (split-ArePlain bs))

split-some : (s : List ℕ) → (c : List ℕ) × (cs : Cwd) × (split s ≡ c ∷ cs)
unfolding split
split-some [] = ([], [], refl)
split-some (b ∷ bs) =
    if-either (λ r. (c : List ℕ) × (cs : Cwd) × (r ≡ c ∷ cs)) (b == slash)
      (λ e. ([], split bs, refl)) (λ e. head_some (split bs))
  where
    head_some : (pieces : Cwd) → (c : List ℕ) × (cs : Cwd) × (cons_head b pieces ≡ c ∷ cs)
    head_some [] = (b ∷ [], [], refl)
    head_some (c ∷ cs) = (b ∷ c, cs, refl)

join-cons_head : (b : ℕ) (pieces : Cwd) → join (cons_head b pieces) ≡ b ∷ join pieces
unfolding join cons_head
join-cons_head b [] = refl
join-cons_head b (c ∷ []) = refl
join-cons_head b (c ∷ c' ∷ cs) = refl

join-slash : (s : List ℕ) → join ([] ∷ split s) ≡ slash ∷ join (split s)
unfolding join
join-slash s = let (c, cs, e) = split-some s in rw e refl

pub join-split : (s : List ℕ) → join (split s) ≡ s
unfolding join split
join-split [] = refl
join-split (b ∷ bs) =
    if-either (λ r. join r ≡ b ∷ bs) (b == slash)
      (λ e. join-slash bs ∙ ap₂ ◌∷◌ {x = slash} {y = b} (ground (arith, e)) (join-split bs))
      (λ e. join-cons_head b (split bs) ∙ ap (λ r. b ∷ r) (join-split bs))

pub drop_last-last : (c : List ℕ) (cs : Cwd) → (l : List ℕ) × (c ∷ cs ≡ drop_last c cs ++ l ∷ [])
unfolding drop_last
drop_last-last c [] = (c, refl)
drop_last-last c (c' ∷ cs) = let (l, e) = drop_last-last c' cs in (l, ap (λ r. c ∷ r) e)

pub ArePlain-front : (xs : Cwd) (c : List ℕ) → ArePlain (xs ++ c ∷ []) → ArePlain xs
ArePlain-front [] c p = tt
ArePlain-front (x ∷ xs) c p = (p.0, ArePlain-front xs c p.1)
