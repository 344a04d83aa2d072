-- ===== src/Base/Branch.antt =====
-- A predicate of a value that is computed by branching, from the branches.
use mathlib.Core.Path.{◌≡◌, refl}
use mathlib.Core.Bool.{Bool, true, false}
use mathlib.Core.Option.{Option, none, some}
use spikeling_os.Base.Tests.{if◌then◌else◌}
use spikeling_os.Base.Result.{Result, ok, err}

pub if-either {ℓ κ} :
    {A : Type ℓ} (P : A → Type κ) (b : Bool) {x y : A}
    → (b ≡ true → P x)
    → (b ≡ false → P y)
    → P (if b then x else y)
if-either P true px py = px refl
if-either P false px py = py refl

pub option-either {ℓ κ ι} :
    {A : Type ℓ} {B : Type κ} (P : B → Type ι) (o : Option A) {x : B} {f : A → B}
    → (o ≡ none → P x)
    → ((a : A) → o ≡ some a → P (f a))
    → P (elim o [ none ↦ x | some a ↦ f a ])
option-either P none px pf = px refl
option-either P (some a) px pf = pf a refl

pub result-either {ℓ κ ι} :
    {E A : Type ℓ} {B : Type κ} (P : B → Type ι) (r : Result E A) {f : A → B} {g : E → B}
    → ((a : A) → r ≡ ok a → P (f a))
    → ((e : E) → r ≡ err e → P (g e))
    → P (elim r [ ok a ↦ f a | err e ↦ g e ])
result-either P (ok a) pf pg = pf a refl
result-either P (err e) pf pg = pg e refl
