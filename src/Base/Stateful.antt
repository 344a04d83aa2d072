-- ===== src/Base/Stateful.antt =====
-- Code that changes a state and may fail: a result beside the new state. An error leaves what was done
-- before it. The bind stays shut, so that a proof can take a chain apart step by step.
use mathlib.Core.Path.{◌≡◌, refl, ◌∙◌}
use mathlib.Core.Bool.{Bool}
use mathlib.Core.Option.{Option}
use native.Mathlib.Omega.{arith}
use spikeling_os.Base.Result.{Result, ok, err, guard, ok_or}
use spikeling_os.Base.Branch.{result-either}

abbrev pub Stateful : Type 0 → Type 0 → Type 0 → Type 0
Stateful S E A = S → Result E A × S

infixl 5 ◌>>=◌ ◌>>◌
unfoldable pub ◌>>=◌ : {S E A B : Type 0} → Stateful S E A → (A → Stateful S E B) → Stateful S E B
◌>>=◌ m f s = let (r, s') = m s in elim r [ ok a ↦ f a s' | err e ↦ (err e, s') ]

abbrev pub ◌>>◌ : {S E B : Type 0} → Stateful S E (Unit {0}) → Stateful S E B → Stateful S E B
m >> k = m >>= λ _. k

abbrev pub done : {S E A : Type 0} → A → Stateful S E A
done a s = (ok a, s)

abbrev pub gets : {S E A : Type 0} → (S → A) → Stateful S E A
gets f s = (ok (f s), s)

abbrev pub modify : {S E : Type 0} → (S → S) → Stateful S E (Unit {0})
modify f s = (ok tt, f s)

-- `if !test { return Err(e) }`
abbrev pub check : {S E : Type 0} → Bool → E → Stateful S E (Unit {0})
check b e s = (guard b e, s)

-- `x.ok_or(e)?`
abbrev pub require : {S E A : Type 0} → Option A → E → Stateful S E A
require o e s = (ok_or o e, s)

-- A chain that succeeds has gone through its first step.
pub bind-ok :
    {S E A B : Type 0} (m : Stateful S E A) (f : A → Stateful S E B) (s s' : S) (b : B)
    → (m >>= f) s ≡ (ok b, s')
    → (a : A) × (s1 : S) × (m s ≡ (ok a, s1)) × (f a s1 ≡ (ok b, s'))
unfolding ◌>>=◌
bind-ok {S} {E} {A} {B} m f s s' b h = split (m s).0 (m s).1 refl h
  where
    split :
        (r : Result E A) (s1 : S)
        → m s ≡ (r, s1)
        → elim r [ ok a ↦ f a s1 | err e ↦ (err e, s1) ] ≡ (ok b, s')
        → (a : A) × (s2 : S) × (m s ≡ (ok a, s2)) × (f a s2 ≡ (ok b, s'))
    split (ok a) s1 e g = (a, s1, e, g)
    split (err e) s1 q g = cc

-- A change of the state, and a look at it, always succeed.
pub modify-next :
    {S E B : Type 0} (f : S → S) (k : Stateful S E B) (s : S) (r : Result E B × S)
    → (modify f >> k) s ≡ r
    → k (f s) ≡ r
unfolding ◌>>=◌
modify-next f k s r h = h

pub gets-next :
    {S E A B : Type 0} (f : S → A) (k : A → Stateful S E B) (s : S) (r : Result E B × S)
    → (gets f >>= k) s ≡ r
    → k (f s) s ≡ r
unfolding ◌>>=◌
gets-next f k s r h = h

-- A check that was passed.
pub check-next :
    {S E B : Type 0} (b : Bool) (e : E) (k : Stateful S E B) (s s' : S) (a : B)
    → (check b e >> k) s ≡ (ok a, s')
    → (b ≡ Bool.true) × (k s ≡ (ok a, s'))
unfolding ◌>>=◌
check-next Bool.true e k s s' a h = (refl, h)
check-next Bool.false e k s s' a h = cc

pub done-ok :
    {S E A : Type 0} (a b : A) (s s' : S) → done {E = E} a s ≡ (ok b, s') → (a ≡ b) × (s ≡ s')
done-ok a b s s' h = ground arith

-- What each step leaves alone, the chain leaves alone.
pub bind-keeps :
    {S E A B V : Type 0} (view : S → V) (m : Stateful S E A) (f : A → Stateful S E B)
    → ((s : S) → view (m s).1 ≡ view s)
    → ((a : A) (s : S) → view (f a s).1 ≡ view s)
    → (s : S) → view ((m >>= f) s).1 ≡ view s
unfolding ◌>>=◌
bind-keeps {S} {E} {A} {B} view m f hm hf s =
    result-either (λ (r : Result E B × S). view r.1 ≡ view s) (m s).0 (λ a e. hf a (m s).1 ∙ hm s)
      (λ e q. hm s)
