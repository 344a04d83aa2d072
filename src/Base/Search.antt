-- ===== src/Base/Search.antt =====
-- `iter().position`, `iter().any` and the comparison of byte strings.
use Prim.Native.Nat.{ℕ, zero, suc, ◌<◌}
use mathlib.Core.Path.{◌≡◌, refl}
use mathlib.Core.Logic.{◌↔◌}
use mathlib.Core.Bool.{Bool, true, false, ◌&&◌, ◌||◌}
use mathlib.Core.Option.{Option, none, some}
use mathlib.Core.Option
use mathlib.Core.List.{List, [], ◌∷◌}
use native.Mathlib.Omega.{arith}
use spikeling_os.Base.Tests.{◌==◌, if◌then◌else◌}
use spikeling_os.Base.Lists.{get_elem?}

module _ {ℓ} {A : Type ℓ} where
  unfoldable pub position : (A → Bool) → List A → Option ℕ
  position p [] = none
  position p (x ∷ xs) = if p x then some 0 else Option.map suc (position p xs)

  unfoldable pub any : (A → Bool) → List A → Bool
  any p [] = false
  any p (x ∷ xs) = p x || any p xs

  -- An index that is found is in range, and the test holds there.
  pub position-some :
      (p : A → Bool) (xs : List A) (i : ℕ)
      → position p xs ≡ some i
      → (a : A) × (get_elem? xs i ≡ some a) × (p a ≡ true)
  unfolding position
  position-some p [] i e = cc
  position-some p (x ∷ xs) zero e = (x, refl, ground arith)
  position-some p (x ∷ xs) (suc i) e = position-some p xs i (ground arith)

  -- The test fails at every index before it.
  pub position-first :
      (p : A → Bool) (xs : List A) (i j : ℕ) {a : A}
      → position p xs ≡ some i
      → j < i
      → get_elem? xs j ≡ some a
      → p a ≡ false
  unfolding position
  position-first p [] i j e h g = cc
  position-first p (x ∷ xs) zero j e h g = elim h [ ]
  position-first p (x ∷ xs) (suc i) zero e h g = ground arith
  position-first p (x ∷ xs) (suc i) (suc j) e h g =
      position-first p xs i j (ground arith) (omega arith) g

  pub position-none :
      (p : A → Bool) (xs : List A) (i : ℕ) {a : A}
      → position p xs ≡ none
      → get_elem? xs i ≡ some a
      → p a ≡ false
  unfolding position
  position-none p [] i e g = cc
  position-none p (x ∷ xs) zero e g = ground arith
  position-none p (x ∷ xs) (suc i) e g = position-none p xs i (ground arith) g

unfoldable pub bytes_eq : List ℕ → List ℕ → Bool
bytes_eq [] [] = true
bytes_eq [] (y ∷ ys) = false
bytes_eq (x ∷ xs) [] = false
bytes_eq (x ∷ xs) (y ∷ ys) = (x == y) && bytes_eq xs ys

pub bytes_eq_iff : (xs ys : List ℕ) → (bytes_eq xs ys ≡ true) ↔ (xs ≡ ys)
unfolding bytes_eq
bytes_eq_iff [] [] = ground arith
bytes_eq_iff [] (y ∷ ys) = ground arith
bytes_eq_iff (x ∷ xs) [] = ground arith
bytes_eq_iff (x ∷ xs) (y ∷ ys) = ground (arith, bytes_eq_iff xs ys)

pub bytes_eq_refl : (xs : List ℕ) → bytes_eq xs xs ≡ true
bytes_eq_refl xs = (bytes_eq_iff xs xs).1 refl

-- What an index holds, with an index out of range holding nothing.
abbrev pub held {ℓ} : {A : Type ℓ} → List (Option A) → ℕ → Option A
held xs i = elim (get_elem? xs i) [ none ↦ none | some o ↦ o ]

abbrev pub is_none {ℓ} : {A : Type ℓ} → Option A → Bool
is_none none = Bool.true
is_none (some a) = Bool.false

abbrev pub is_some {ℓ} : {A : Type ℓ} → Option A → Bool
is_some none = Bool.false
is_some (some a) = Bool.true
