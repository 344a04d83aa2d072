-- ===== src/Tasks/Stacks.antt =====
-- kernel/src/tasks.rs: the parts of its state at an index, after each of the changes that the
-- operations make.
use spikeling_os.Base.{
  ℕ, zero, suc, ◌≤◌, ◌<◌, ◌≡◌, ◌==◌, ◌&&◌, not, refl, ap, sym, ◌∙◌, List, [], ◌∷◌, ◌++◌, Bool, true,
  false, Option, none, some, if◌then◌else◌, arith, length, set, length-set, held, is_some,
  Bool-cases, inl, inr,
}
use spikeling_os.Scheduler.{
  Floats, Scheduler, Slot, is_alive, update, kill_slot, revive, add_slot, fresh_slot,
}
use spikeling_os.Tasks.{Task, is_current, reap}

abbrev pub member : ℕ → List ℕ → Bool
member z [] = false
member z (x ∷ xs) = if x == z then true else member z xs

pub member-append :
    (z : ℕ) (xs : List ℕ) (y : ℕ) → member z (xs ++ y ∷ []) ≡ true → member z xs ≡ false → y ≡ z
member-append z [] y h n = ground arith
member-append z (x ∷ xs) y h n = ground (arith, member-append z xs y)

held-nil {ℓ} : {A : Type ℓ} (xs : List (Option A)) (i : ℕ) → length xs ≤ i → held xs i ≡ none
held-nil [] i h = refl
held-nil (x ∷ xs) zero h = absurd (omega arith)
held-nil (x ∷ xs) (suc i) h = held-nil xs i (omega arith)

pub held-some-lt {ℓ} :
    {A : Type ℓ} (xs : List (Option A)) (i : ℕ) → is_some (held xs i) ≡ true → i < length xs
held-some-lt [] i h = cc
held-some-lt (x ∷ xs) zero h = omega arith
held-some-lt (x ∷ xs) (suc i) h = omega (arith, held-some-lt xs i h)

pub held-clear {ℓ} :
    {A : Type ℓ} (xs : List (Option A)) (i j : ℕ)
    → held (set xs i none) j ≡ (if i == j then none else held xs j)
held-clear [] i j = ground arith
held-clear (x ∷ xs) zero zero = refl
held-clear (x ∷ xs) zero (suc j) = ground arith
held-clear (x ∷ xs) (suc i) zero = ground arith
held-clear (x ∷ xs) (suc i) (suc j) = held-clear xs i j ∙ ground arith

pub held-put {ℓ} :
    {A : Type ℓ} (xs : List (Option A)) (i j : ℕ) (a : A)
    → i < length xs
    → held (set xs i (some a)) j ≡ (if i == j then some a else held xs j)
held-put [] i j a h = absurd (omega arith)
held-put (x ∷ xs) zero zero a h = refl
held-put (x ∷ xs) zero (suc j) a h = ground arith
held-put (x ∷ xs) (suc i) zero a h = ground arith
held-put (x ∷ xs) (suc i) (suc j) a h = held-put xs i j a (omega arith) ∙ ground arith

pub held-push {ℓ} :
    {A : Type ℓ} (xs : List (Option A)) (j : ℕ) → held (xs ++ none ∷ []) j ≡ held xs j
held-push [] zero = refl
held-push [] (suc j) = refl
held-push (x ∷ xs) zero = refl
held-push (x ∷ xs) (suc j) = held-push xs j

same_current :
    (current : Option ℕ) (id j : ℕ)
    → (id == j) ≡ true
    → is_current current id ≡ is_current current j
same_current current id j h = ap (is_current current) (ground arith)

-- What reap_zombies() keeps queued is what runs.
pub reap-current :
    (current : Option ℕ) (ids : List ℕ) (tasks : List (Option Task)) (z : ℕ)
    → member z (reap current ids tasks).0 ≡ true
    → (is_current current z ≡ true) × (member z ids ≡ true)
unfolding reap
reap-current current [] tasks z h = cc
reap-current current (id ∷ ids) tasks z h = elim (Bool-cases (is_current current id)) [
  | inl e ↦ elim (Bool-cases (id == z)) [
    | inl here ↦ (sym (same_current current id z here) ∙ e, rw here refl)
    | inr other ↦
        let (cur, mem) = reap-current current ids tasks z (rw (e, other) at h) in
        (cur, rw other mem)
  ]
  | inr e ↦
      let (cur, mem) = reap-current current ids (set tasks id none) z (rw e at h) in
      (cur, ground arith)
]

-- It frees what does not run and is queued, and nothing else.
pub held-reap :
    (current : Option ℕ) (ids : List ℕ) (tasks : List (Option Task)) (j : ℕ)
    → held (reap current ids tasks).1 j
      ≡ (if member j ids && not (is_current current j) then none else held tasks j)
unfolding reap
held-reap current [] tasks j = refl
held-reap current (id ∷ ids) tasks j = elim (Bool-cases (is_current current id)) [
  | inl e ↦ rw e (
      held-reap current ids tasks j
      ∙ kept (member j ids) (id == j) (is_current current j)
          (λ q. sym (same_current current id j q) ∙ e))
  | inr e ↦ rw e (
      held-reap current ids (set tasks id none) j
      ∙ freed (member j ids) (id == j) (is_current current j) (held-clear tasks id j)
          (λ q. sym (same_current current id j q) ∙ e))
]
  where
    kept :
        (m b c : Bool)
        → (b ≡ true → c ≡ true)
        → (if m && not c then none else held tasks j)
          ≡ (if (if b then true else m) && not c then none else held tasks j)
    kept true true c h = rw (h refl) refl
    kept false true c h = rw (h refl) refl
    kept m false c h = refl

    freed :
        (m b c : Bool)
        → held (set tasks id none) j ≡ (if b then none else held tasks j)
        → (b ≡ true → c ≡ false)
        → (if m && not c then none else held (set tasks id none) j)
          ≡ (if (if b then true else m) && not c then none else held tasks j)
    freed true true c e h = rw (h refl) refl
    freed false true c e h = rw (h refl) e
    freed m false c e h = rw e refl

-- What runs keeps its task.
pub held-reap_current :
    (current : Option ℕ) (ids : List ℕ) (tasks : List (Option Task)) (j : ℕ)
    → is_current current j ≡ true
    → held (reap current ids tasks).1 j ≡ held tasks j
held-reap_current current ids tasks j h =
    held-reap current ids tasks j ∙ kept (member j ids) (is_current current j) h
  where
    kept : (m c : Bool) → c ≡ true → (if m && not c then none else held tasks j) ≡ held tasks j
    kept true c h = rw h refl
    kept false c h = refl

pub length-reap :
    (current : Option ℕ) (ids : List ℕ) (tasks : List (Option Task))
    → length (reap current ids tasks).1 ≡ length tasks
unfolding reap
length-reap current [] tasks = refl
length-reap current (id ∷ ids) tasks = elim (Bool-cases (is_current current id)) [
  | inl e ↦ rw e (length-reap current ids tasks)
  | inr e ↦ rw e (length-reap current ids (set tasks id none) ∙ length-set tasks id none)
]

module _ (fl : Floats) where
  alive-update :
      (xs : List (Slot fl)) (i j : ℕ) (f : Slot fl → Slot fl)
      → (i == j) ≡ false
      → is_alive fl (update xs i f) j ≡ is_alive fl xs j
  alive-update [] i j f h = refl
  alive-update (x ∷ xs) zero zero f h = absurd (ground arith)
  alive-update (x ∷ xs) zero (suc j) f h = refl
  alive-update (x ∷ xs) (suc i) zero f h = refl
  alive-update (x ∷ xs) (suc i) (suc j) f h = alive-update xs i j f (ground arith)

  dead-update :
      (xs : List (Slot fl)) (i : ℕ) (f : Slot fl → Slot fl)
      → ((x : Slot fl) → (f x).alive ≡ false)
      → is_alive fl (update xs i f) i ≡ false
  dead-update [] i f h = refl
  dead-update (x ∷ xs) zero f h = h x
  dead-update (x ∷ xs) (suc i) f h = dead-update xs i f h

  pub alive-kill :
      (id : ℕ) (s : Scheduler fl) (j : ℕ)
      → is_alive fl (kill_slot fl id s).slots j ≡ (if id == j then false else is_alive fl s.slots j)
  unfolding kill_slot
  alive-kill id s j = elim (Bool-cases (id == j)) [
    | inl e ↦
        let same : id ≡ j = ground arith in
        rw e (
          ap (is_alive fl (kill_slot fl id s).slots) (sym same)
          ∙ dead-update s.slots id (λ x. record x { alive = false; potential = fl.nought })
              (λ x. refl))
    | inr e ↦ rw e (alive-update s.slots id j _ e)
  ]

  pub alive-revive :
      (id : ℕ) (s : Scheduler fl) (j : ℕ)
      → (id == j) ≡ false
      → is_alive fl (revive fl id s).slots j ≡ is_alive fl s.slots j
  unfolding revive
  alive-revive id s j ne = alive-update s.slots id j _ ne

  alive-push :
      (xs : List (Slot fl)) (j : ℕ)
      → (length xs == j) ≡ false
      → is_alive fl (xs ++ fresh_slot fl ∷ []) j ≡ is_alive fl xs j
  alive-push [] zero h = absurd (ground arith)
  alive-push [] (suc j) h = refl
  alive-push (x ∷ xs) zero h = refl
  alive-push (x ∷ xs) (suc j) h = alive-push xs j (ground arith)

  pub alive-add :
      (s : Scheduler fl) (j : ℕ)
      → (length s.slots == j) ≡ false
      → is_alive fl (add_slot fl s).1.slots j ≡ is_alive fl s.slots j
  unfolding add_slot
  alive-add s j ne = alive-push s.slots j ne
