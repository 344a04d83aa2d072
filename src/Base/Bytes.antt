-- ===== src/Base/Bytes.antt =====
-- What stands at an index of a list of bytes that is put together, with 0 past its end.
use Prim.Native.Nat.{ℕ, zero, suc, ◌+◌, ◌-◌, ◌≤◌}
use mathlib.Core.Path.{◌≡◌, refl, ap, sym, ◌∙◌}
use mathlib.Core.List.{List, [], ◌∷◌, ◌++◌}
use native.Mathlib.Omega.{arith}
use spikeling_os.Base.Tests.{ltb, if◌then◌else◌}
use spikeling_os.Base.Lists.{length, get_or, take, drop, replicate, take_nil}

pub get_or-past : (xs : List ℕ) (i : ℕ) → length xs ≤ i → get_or xs i 0 ≡ zero
get_or-past [] i h = refl
get_or-past (x ∷ xs) zero h = absurd (ground arith)
get_or-past (x ∷ xs) (suc i) h = get_or-past xs i (omega arith)

pub get_or-append :
    (xs ys : List ℕ) (i : ℕ)
    → get_or (xs ++ ys) i 0
      ≡ (if ltb i (length xs) then get_or xs i 0 else get_or ys (i - length xs) 0)
get_or-append [] ys i = ground arith
get_or-append (x ∷ xs) ys zero = ground arith
get_or-append (x ∷ xs) ys (suc i) = ground (arith, get_or-append xs ys i)

pub get_or-take :
    (xs : List ℕ) (n i : ℕ) → get_or (take n xs) i 0 ≡ (if ltb i n then get_or xs i 0 else 0)
get_or-take xs zero i = ground arith
get_or-take [] (suc n) i = ground arith
get_or-take (x ∷ xs) (suc n) zero = ground arith
get_or-take (x ∷ xs) (suc n) (suc i) = ground (arith, get_or-take xs n i)

pub get_or-drop : (xs : List ℕ) (n i : ℕ) → get_or (drop n xs) i 0 ≡ get_or xs (n + i) 0
get_or-drop xs zero i = ap (λ j. get_or xs j 0) (omega arith)
get_or-drop [] (suc n) i = refl
get_or-drop (x ∷ xs) (suc n) i =
    get_or-drop xs n i ∙ ap (λ j. get_or (x ∷ xs) j 0) {x = suc (n + i)} (omega arith)

pub get_or-replicate : (n i : ℕ) → get_or (replicate {A = ℕ} n 0) i 0 ≡ zero
get_or-replicate zero i = refl
get_or-replicate (suc n) zero = refl
get_or-replicate (suc n) (suc i) = get_or-replicate n i

-- The first `a` and the next `b`.
pub take-sum : (a b : ℕ) (xs : List ℕ) → take (a + b) xs ≡ take a xs ++ take b (drop a xs)
take-sum zero b xs = ap (λ n. take n xs) (omega arith)
take-sum (suc a) b [] = take_nil (suc a + b) ∙ sym (take_nil b)
take-sum (suc a) b (x ∷ xs) =
    ap (λ n. take n (x ∷ xs)) {y = suc (a + b)} (omega arith) ∙ ap (λ r. x ∷ r) (take-sum a b xs)
