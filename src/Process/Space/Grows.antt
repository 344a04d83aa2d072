-- ===== src/Process/Space/Grows.antt =====
-- How building an address space uses up frames: each step takes frames that were never handed out, and
-- writes to no other page.
use spikeling_os.Base.{ℕ, suc, ◌≤◌, ◌<◌, ◌≡◌, ◌≢◌, List, [], ◌∷◌, some, arith, get_elem?}
use spikeling_os.Memory.{Region, usable_frames, IsMap}
use spikeling_os.Memory.Frames.{usable_frames-distinct}

-- `f` is the frame of allocation number `i`.
abbrev pub Numbered : List Region → ℕ → ℕ → Type 0
Numbered rs i f = get_elem? (usable_frames rs) i ≡ some f

-- The frames are handed out in this order, from allocation `lo` on and before `hi`.
abbrev pub Allotted : List Region → ℕ → List ℕ → ℕ → Type 0
Allotted rs lo [] hi = lo ≤ hi
Allotted rs lo (f ∷ fs) hi = (i : ℕ) × (lo ≤ i) × Numbered rs i f × Allotted rs (suc i) fs hi

-- A frame handed out before allocation `n`.
pub record IsOld (rs : List Region) (n f : ℕ) : Type 0 where
  pub index : ℕ
  pub before : index < n
  pub numbered : Numbered rs index f

pub Allotted-le :
    (rs : List Region) (lo : ℕ) (fs : List ℕ) (hi : ℕ) → Allotted rs lo fs hi → lo ≤ hi
Allotted-le rs lo [] hi a = a
Allotted-le rs lo (f ∷ fs) hi (i, le, n, rest) = omega (arith, Allotted-le rs (suc i) fs hi rest)

pub Allotted-weaken :
    (rs : List Region) (lo lo' : ℕ) (fs : List ℕ) (hi : ℕ)
    → lo' ≤ lo
    → Allotted rs lo fs hi
    → Allotted rs lo' fs hi
Allotted-weaken rs lo lo' [] hi h a = omega arith
Allotted-weaken rs lo lo' (f ∷ fs) hi h (i, le, n, rest) = (i, omega arith, n, rest)

pub Allotted-extend :
    (rs : List Region) (lo : ℕ) (fs : List ℕ) (hi hi' : ℕ)
    → hi ≤ hi'
    → Allotted rs lo fs hi
    → Allotted rs lo fs hi'
Allotted-extend rs lo [] hi hi' h a = omega arith
Allotted-extend rs lo (f ∷ fs) hi hi' h (i, le, n, rest) =
    (i, le, n, Allotted-extend rs (suc i) fs hi hi' h rest)

-- What is handed out from `lo` on is none of the earlier frames.
abbrev pub Avoids : ℕ → List ℕ → Type 0
Avoids f [] = Unit {0}
Avoids f (g ∷ gs) = (f ≢ g) × Avoids f gs

pub Allotted-Avoids :
    (rs : List Region) (i lo : ℕ) (f : ℕ) (fs : List ℕ) (hi : ℕ)
    → IsMap rs
    → Numbered rs i f
    → i < lo
    → Allotted rs lo fs hi
    → Avoids f fs
Allotted-Avoids rs i lo f [] hi m n h a = tt
Allotted-Avoids rs i lo f (g ∷ gs) hi m n h (j, le, e, rest) = (
  usable_frames-distinct rs i j f g m (omega arith) n e,
  Allotted-Avoids rs i (suc j) f gs hi m n (omega arith) rest,
)

pub old-Avoids :
    (rs : List Region) (lo : ℕ) (f : ℕ) (fs : List ℕ) (hi : ℕ)
    → IsMap rs
    → IsOld rs lo f
    → Allotted rs lo fs hi
    → Avoids f fs
old-Avoids rs lo f fs hi m o a = Allotted-Avoids rs o.index lo f fs hi m o.numbered o.before a

-- No frame stands twice in a list.
abbrev pub AllDistinct : List ℕ → Type 0
AllDistinct [] = Unit {0}
AllDistinct (f ∷ fs) = Avoids f fs × AllDistinct fs

pub Allotted-AllDistinct :
    (rs : List Region) (lo : ℕ) (fs : List ℕ) (hi : ℕ)
    → IsMap rs
    → Allotted rs lo fs hi
    → AllDistinct fs
Allotted-AllDistinct rs lo [] hi m a = tt
Allotted-AllDistinct rs lo (f ∷ fs) hi m (i, le, n, rest) = (
  Allotted-Avoids rs i (suc i) f fs hi m n (omega arith) rest,
  Allotted-AllDistinct rs (suc i) fs hi m rest,
)
