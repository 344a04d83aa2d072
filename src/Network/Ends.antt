-- ===== src/Network/Ends.antt =====
-- Lists of names without a repetition, and of pairs of indices below a bound: what a well-formed network of
-- kernel/src/network.rs is made of.
use spikeling_os.Base.{
  ℕ, zero, suc, ◌<◌, ◌≡◌, ◌≢◌, refl, ap, ap₂, sym, List, [], ◌∷◌, ◌++◌, map, arith, length,
}
use spikeling_os.Scheduler.{update}

pub length-update {ℓ} :
    {A : Type ℓ} (xs : List A) (i : ℕ) (f : A → A) → length (update xs i f) ≡ length xs
length-update [] i f = refl
length-update (x ∷ xs) zero f = refl
length-update (x ∷ xs) (suc i) f = ap suc (length-update xs i f)

pub map-update {ℓ κ} :
    {A : Type ℓ} {B : Type κ} (g : A → B) (xs : List A) (i : ℕ) (f : A → A)
    → ((a : A) → g (f a) ≡ g a)
    → map g (update xs i f) ≡ map g xs
map-update g [] i f h = refl
map-update g (x ∷ xs) zero f h = ap (λ y. y ∷ map g xs) (h x)
map-update g (x ∷ xs) (suc i) f h = ap (λ ys. g x ∷ ys) (map-update g xs i f h)

pub map-map {ℓ κ} :
    {A : Type ℓ} {B : Type κ} (g : A → B) (f : A → A) (xs : List A)
    → ((a : A) → g (f a) ≡ g a)
    → map g (map f xs) ≡ map g xs
map-map g f [] h = refl
map-map g f (x ∷ xs) h = ap₂ (λ y ys. y ∷ ys) (h x) (map-map g f xs h)

pub map-snoc {ℓ κ} :
    {A : Type ℓ} {B : Type κ} (g : A → B) (xs : List A) (x : A)
    → map g (xs ++ (x ∷ [])) ≡ map g xs ++ (g x ∷ [])
map-snoc g [] x = refl
map-snoc g (y ∷ ys) x = ap (λ zs. g y ∷ zs) (map-snoc g ys x)

pub length-snoc {ℓ} : {A : Type ℓ} (xs : List A) (x : A) → length (xs ++ (x ∷ [])) ≡ suc (length xs)
length-snoc [] x = refl
length-snoc (y ∷ ys) x = ap suc (length-snoc ys x)

-- The ends of synapses, each below a bound.
abbrev pub EndsBelow : ℕ → List (ℕ × ℕ) → Type 0
EndsBelow n [] = Unit {0}
EndsBelow n ((a, b) ∷ es) = (a < n) × (b < n) × EndsBelow n es

pub EndsBelow-snoc :
    (n a b : ℕ) (es : List (ℕ × ℕ))
    → a < n
    → b < n
    → EndsBelow n es
    → EndsBelow n (es ++ ((a, b) ∷ []))
EndsBelow-snoc n a b [] ha hb h = (ha, hb, tt)
EndsBelow-snoc n a b ((c, d) ∷ es) ha hb (hc, hd, h) = (hc, hd, EndsBelow-snoc n a b es ha hb h)

pub EndsBelow-suc : (n : ℕ) (es : List (ℕ × ℕ)) → EndsBelow n es → EndsBelow (suc n) es
EndsBelow-suc n [] h = tt
EndsBelow-suc n ((a, b) ∷ es) (ha, hb, h) = (omega arith, omega arith, EndsBelow-suc n es h)

-- No name stands twice.
abbrev pub Absent : List ℕ → List (List ℕ) → Type 0
Absent x [] = Unit {0}
Absent x (y ∷ ys) = (y ≢ x) × Absent x ys

abbrev pub Unique : List (List ℕ) → Type 0
Unique [] = Unit {0}
Unique (x ∷ xs) = Absent x xs × Unique xs

Absent-snoc : (x y : List ℕ) (ys : List (List ℕ)) → y ≢ x → Absent x ys → Absent x (ys ++ (y ∷ []))
Absent-snoc x y [] ne h = (ne, tt)
Absent-snoc x y (z ∷ zs) ne (hz, h) = (hz, Absent-snoc x y zs ne h)

pub Unique-snoc :
    (x : List ℕ) (xs : List (List ℕ)) → Absent x xs → Unique xs → Unique (xs ++ (x ∷ []))
Unique-snoc x [] a u = (tt, tt)
Unique-snoc x (y ∷ ys) (ne, a) (ay, u) =
    (Absent-snoc y x ys (λ e. ne (sym e)) ay, Unique-snoc x ys a u)
