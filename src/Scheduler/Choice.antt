-- ===== src/Scheduler/Choice.antt =====
-- kernel/src/scheduler.rs: what step() chooses, and what the operations keep.
use spikeling_os.Base.{
  ℕ, zero, suc, ◌+◌, ◌-◌, ◌≡◌, ◌≢◌, ◌⊎◌, refl, ap, sym, ◌∙◌, List, [], ◌∷◌, ◌++◌, true, false,
  Option, none, some, arith, length, get_elem?, length-replicate, Bool-cases, Option-cases, inl,
  inr,
}
use spikeling_os.Scheduler.{
  Floats, update, Slot, Scheduler, alternate, fresh_slot, new_scheduler, kill_slot, add_slot,
  revive, is_alive, accumulate, is_ready, better, choose, fire, step,
}

pub length-update {ℓ} :
    {A : Type ℓ} (xs : List A) (i : ℕ) (f : A → A) → length (update xs i f) ≡ length xs
length-update [] i f = refl
length-update (x ∷ xs) zero f = refl
length-update (x ∷ xs) (suc i) f = ap suc (length-update xs i f)

module _ (fl : Floats) where
  -- A bond for each pair of neighbours, so that the indices of step() are in range.
  abbrev pub IsSized : Scheduler fl → Type 0
  IsSized s = length s.bonds ≡ length s.slots - 1

  length-alternate : (g : fl.Carrier) (i n : ℕ) → length (alternate fl g i n) ≡ n
  unfolding alternate
  length-alternate g i zero = refl
  length-alternate g i (suc n) = ap suc (length-alternate g (i + 1) n)

  pub length-accumulate :
      (s : Scheduler fl) (i : ℕ) (xs : List (Slot fl)) → length (accumulate fl s i xs) ≡ length xs
  unfolding accumulate
  length-accumulate s i [] = refl
  length-accumulate s i (x ∷ xs) = ap suc (length-accumulate s (i + 1) xs)

  -- The accumulation moves potentials, and nothing else.
  alive-accumulate :
      (s : Scheduler fl) (i : ℕ) (xs : List (Slot fl)) (j : ℕ)
      → is_alive fl (accumulate fl s i xs) j ≡ is_alive fl xs j
  unfolding accumulate
  alive-accumulate s i [] j = refl
  alive-accumulate s i (x ∷ xs) zero = ground arith
  alive-accumulate s i (x ∷ xs) (suc j) = alive-accumulate s (i + 1) xs j

  alive-fire :
      (xs : List (Slot fl)) (i j : ℕ) → is_alive fl (update xs i (fire fl)) j ≡ is_alive fl xs j
  alive-fire [] i j = refl
  alive-fire (x ∷ xs) zero zero = refl
  alive-fire (x ∷ xs) zero (suc j) = refl
  alive-fire (x ∷ xs) (suc i) zero = refl
  alive-fire (x ∷ xs) (suc i) (suc j) = alive-fire xs i j

  better-either :
      (i0 : ℕ) (new : fl.Carrier) (best : Option (ℕ × fl.Carrier)) {i : ℕ} {p : fl.Carrier}
      → some (better fl i0 new best) ≡ some (i, p)
      → (best ≡ some (i, p)) ⊎ (i ≡ i0)
  better-either i0 new none h = inr cc
  better-either i0 new (some (j, old)) h = elim (Bool-cases (fl.gt old new)) [
    | inl e ↦ inl (rw e at h)
    | inr e ↦ inr (let back : some (i0, new) ≡ some _ = rw e at h in cc)
  ]

  -- What is chosen is what was best before, or a slot that is ready.
  pub choose-ready :
      (i0 : ℕ) (xs : List (Slot fl)) (best : Option (ℕ × fl.Carrier)) {i : ℕ} {p : fl.Carrier}
      → choose fl i0 xs best ≡ some (i, p)
      → (best ≡ some (i, p))
        ⊎ ((j : ℕ) × (x : Slot fl) × (i ≡ i0 + j)
            × (get_elem? xs j ≡ some x)
            × (is_ready fl x ≡ true))
  unfolding choose
  choose-ready i0 [] best h = inl h
  choose-ready i0 (x ∷ xs) best {i} {p} h = elim (Bool-cases (is_ready fl x)) [
    | inl ready ↦
        elim (choose-ready (i0 + 1) xs (some (better fl i0 x.potential best)) {i = i} {p = p}
          (rw ready at h)) [
            | inl e ↦ elim (better-either i0 x.potential best e) [
              | inl old ↦ inl old
              | inr new ↦ inr (0, x, omega arith, refl, ready)
            ]
            | inr (j, y, same, at, r) ↦ inr (suc j, y, omega arith, at, r)
          ]
    | inr idle ↦ elim (choose-ready (i0 + 1) xs best {i = i} {p = p} (rw idle at h)) [
      | inl e ↦ inl e
      | inr (j, y, same, at, r) ↦ inr (suc j, y, omega arith, at, r)
    ]
  ]

  choose-some :
      (i0 : ℕ) (xs : List (Slot fl)) (b : ℕ × fl.Carrier) → choose fl i0 xs (some b) ≢ none
  unfolding choose
  choose-some i0 [] b h = cc
  choose-some i0 (x ∷ xs) b h = elim (Bool-cases (is_ready fl x)) [
    | inl ready ↦ choose-some (i0 + 1) xs (better fl i0 x.potential (some b)) (rw ready at h)
    | inr idle ↦ choose-some (i0 + 1) xs b (rw idle at h)
  ]

  pub choose-none :
      (i0 : ℕ) (xs : List (Slot fl)) (j : ℕ) {x : Slot fl}
      → choose fl i0 xs none ≡ none
      → get_elem? xs j ≡ some x
      → is_ready fl x ≡ false
  unfolding choose
  choose-none i0 [] j h at = cc
  choose-none i0 (y ∷ ys) j {x} h at = elim (Bool-cases (is_ready fl y)) [
    | inl ready ↦ absurd (choose-some (i0 + 1) ys (better fl i0 y.potential none) (rw ready at h))
    | inr idle ↦
        elim j as (λ j. get_elem? (y ∷ ys) j ≡ some x → is_ready fl x ≡ false) [
          | zero ↦ λ e. let same : y ≡ x = cc in ap (is_ready fl) (sym same) ∙ idle
          | suc k ↦ λ e. choose-none (i0 + 1) ys k (rw idle at h) e
        ]
          at
  ]

pub get_elem?-update {ℓ} :
    {A : Type ℓ} (xs : List A) (i : ℕ) (f : A → A) {x : A}
    → get_elem? xs i ≡ some x
    → get_elem? (update xs i f) i ≡ some (f x)
get_elem?-update [] i f h = cc
get_elem?-update (y ∷ ys) zero f h = cc
get_elem?-update (y ∷ ys) (suc i) f h = get_elem?-update ys i f h

pub get_elem?-update_other {ℓ} :
    {A : Type ℓ} (xs : List A) (i j : ℕ) (f : A → A)
    → i ≢ j
    → get_elem? (update xs i f) j ≡ get_elem? xs j
get_elem?-update_other [] i j f h = refl
get_elem?-update_other (x ∷ xs) zero zero f h = absurd (h refl)
get_elem?-update_other (x ∷ xs) zero (suc j) f h = refl
get_elem?-update_other (x ∷ xs) (suc i) zero f h = refl
get_elem?-update_other (x ∷ xs) (suc i) (suc j) f h =
    get_elem?-update_other xs i j f (λ e. h (ap suc e))

module _ (fl : Floats) where
  pub step-chosen :
      (s : Scheduler fl) (i : ℕ) (p : fl.Carrier)
      → choose fl 0 (accumulate fl s 0 s.slots) none ≡ some (i, p)
      → step fl s ≡ (some i, record s { slots = update (accumulate fl s 0 s.slots) i (fire fl) })
  unfolding step
  step-chosen s i p h = rw (h, step) refl

  pub step-none :
      (s : Scheduler fl)
      → choose fl 0 (accumulate fl s 0 s.slots) none ≡ none
      → step fl s ≡ (none, record s { slots = accumulate fl s 0 s.slots })
  unfolding step
  step-none s h = rw (h, step) refl

  pub step-ready :
      (s : Scheduler fl) (i : ℕ)
      → (step fl s).0 ≡ some i
      → (is_alive fl s.slots i ≡ true)
        × ((x : Slot fl) × (get_elem? (accumulate fl s 0 s.slots) i ≡ some x)
            × (is_ready fl x ≡ true)
            × (get_elem? (step fl s).1.slots i ≡ some (fire fl x)))
  step-ready s i h = elim (Option-cases (choose fl 0 (accumulate fl s 0 s.slots) none)) [
    | inl e ↦ absurd (let nothing : none ≡ some i = sym (ap (λ r. r.0) (step-none s e)) ∙ h in cc)
    | inr ((k, p), e) ↦
        let same : some k ≡ some i = sym (ap (λ r. r.0) (step-chosen s k p e)) ∙ h in
        elim (choose-ready fl 0 (accumulate fl s 0 s.slots) none {i = k} {p = p} e) [
          | inl old ↦ absurd cc
          | inr (j, x, at_k, at, ready) ↦
              let here : j ≡ i = ground arith in
              let at_i : get_elem? (accumulate fl s 0 s.slots) i ≡ some x =
                ap (get_elem? (accumulate fl s 0 s.slots)) (sym here) ∙ at in
              (
                sym (alive-accumulate fl s 0 s.slots i) ∙ ground arith,
                (
                  x,
                  at_i,
                  ready,
                  ap (λ r. get_elem? r.1.slots i) (step-chosen s k p e)
                      ∙ ap (λ m. get_elem? (update (accumulate fl s 0 s.slots) m (fire fl)) i)
                          (ground arith)
                      ∙ get_elem?-update (accumulate fl s 0 s.slots) i (fire fl) at_i,
                ),
              )
        ]
  ]

  step-idle :
      (s : Scheduler fl) (j : ℕ) (x : Slot fl)
      → (step fl s).0 ≡ none
      → get_elem? (accumulate fl s 0 s.slots) j ≡ some x
      → is_ready fl x ≡ false
  step-idle s j x h at = elim (Option-cases (choose fl 0 (accumulate fl s 0 s.slots) none)) [
    | inl e ↦ choose-none fl 0 (accumulate fl s 0 s.slots) j e at
    | inr ((k, p), e) ↦
        absurd (let nothing : some k ≡ none = sym (ap (λ r. r.0) (step-chosen s k p e)) ∙ h in cc)
  ]

  pub step-keeps :
      (s : Scheduler fl) (j : ℕ)
      → (is_alive fl (step fl s).1.slots j ≡ is_alive fl s.slots j)
        × (length (step fl s).1.slots ≡ length s.slots)
        × ((step fl s).1.bonds ≡ s.bonds)
  step-keeps s j = elim (Option-cases (choose fl 0 (accumulate fl s 0 s.slots) none)) [
    | inl e ↦
        rw (step-none s e)
          (alive-accumulate fl s 0 s.slots j, length-accumulate fl s 0 s.slots, refl)
    | inr ((k, p), e) ↦ rw (step-chosen s k p e) (
      alive-fire fl (accumulate fl s 0 s.slots) k j ∙ alive-accumulate fl s 0 s.slots j,
      length-update (accumulate fl s 0 s.slots) k (fire fl) ∙ length-accumulate fl s 0 s.slots,
      refl,
    )
  ]

  new_scheduler-IsSized : (n : ℕ) (g : fl.Carrier) → IsSized fl (new_scheduler fl n g)
  unfolding new_scheduler
  new_scheduler-IsSized n g =
      omega (arith, length-alternate fl g 0 (n - 1), length-replicate n (fresh_slot fl))

  add_slot-IsSized : (s : Scheduler fl) → IsSized fl (add_slot fl s).1
  unfolding add_slot
  add_slot-IsSized s = length-alternate fl s.g 0 (length (s.slots ++ fresh_slot fl ∷ []) - 1)

  -- Every bank that the operations make has one bond for each pair of neighbouring slots, so that no
  -- index of step() into the bonds is out of range: a new bank and one that has grown have it, and
  -- killing a slot, reviving one and a step keep it.
  pub operations-IsSized :
      (n id : ℕ) (g : fl.Carrier) (s : Scheduler fl)
      → IsSized fl s
      → IsSized fl (new_scheduler fl n g)
        × IsSized fl (add_slot fl s).1
        × IsSized fl (kill_slot fl id s)
        × IsSized fl (revive fl id s)
        × IsSized fl (step fl s).1
  unfolding kill_slot revive
  operations-IsSized n id g s h = (
    new_scheduler-IsSized n g,
    add_slot-IsSized s,
    omega (
      arith,
      h,
      length-update s.slots id (λ x. record x { alive = false; potential = fl.nought }),
    ),
    omega (arith, h, length-update s.slots id (λ _. fresh_slot fl)),
    omega (arith, h, (step-keeps s 0).1, ap length ((step-keeps s 0).2)),
  )
