-- ===== src/Scheduler/Charge.antt =====
-- kernel/src/scheduler.rs: what a round of step() adds to each slot's potential.
use spikeling_os.Base.{
  ℕ, zero, suc, ◌+◌, ◌-◌, ◌≡◌, refl, ap, sym, ◌∙◌, ◌&&◌, leb, List, [], ◌∷◌, map, Bool, true, false,
  Option, none, some, if◌then◌else◌, arith, get_elem?, get_or, Bool-cases, Option-cases, inl, inr,
}
use spikeling_os.Scheduler.{Floats, Slot, Scheduler, is_alive, coupling, accumulate}

module _ (fl : Floats) where
  -- The potential of a slot that is there and alive.
  abbrev pub living : Scheduler fl → ℕ → Option fl.Carrier
  living s n = elim (get_elem? s.slots n) [
    | none ↦ none
    | some x ↦ if x.alive then some x.potential else none
  ]

  abbrev pub pull : fl.Carrier → fl.Carrier → Option fl.Carrier → fl.Carrier
  pull so_far weight none = so_far
  pull so_far weight (some p) = fl.add so_far (fl.mul weight p)

  abbrev pub bond : Scheduler fl → ℕ → fl.Carrier
  bond s n = get_or s.bonds n fl.nought

  -- What the neighbours of slot `i` send it: the slot before it over the bond `i - 1`, if there is one,
  -- then the slot after it over the bond `i`.
  abbrev pub input : Scheduler fl → ℕ → fl.Carrier
  input s zero = pull fl.nought (bond s 0) (living s 1)
  input s (suc i) =
      pull (pull fl.nought (bond s i) (living s i)) (bond s (suc i)) (living s (suc (suc i)))

  -- A slot's potential in this round: a dead one's stays.
  abbrev pub charge : Scheduler fl → ℕ → Slot fl → fl.Carrier
  charge s i x =
      if x.alive
      then fl.add x.potential (fl.add fl.bias (fl.mul fl.scale (input s i)))
      else x.potential

  get_or-map :
      (xs : List (Slot fl)) (n : ℕ) {x : Slot fl}
      → get_elem? xs n ≡ some x
      → get_or (map (λ x. x.potential) xs) n fl.nought ≡ x.potential
  get_or-map [] n h = cc
  get_or-map (y ∷ ys) zero {x} h = let same : y ≡ x = cc in ap (λ (z : Slot fl). z.potential) same
  get_or-map (y ∷ ys) (suc n) h = get_or-map ys n h

  pull-living :
      (s : Scheduler fl) (n : ℕ) (so_far weight : fl.Carrier)
      → (if is_alive fl s.slots n
          then fl.add so_far (fl.mul weight (get_or (map (λ x. x.potential) s.slots) n fl.nought))
          else so_far)
        ≡ pull so_far weight (living s n)
  pull-living s n so_far weight =
      let snapshot = map (λ (x : Slot fl). x.potential) s.slots in
      let whole : Bool → fl.Carrier =
        λ b. if b then fl.add so_far (fl.mul weight (get_or snapshot n fl.nought)) else so_far in
      let alive_of : Option (Slot fl) → Bool = λ o. elim o [ none ↦ false | some x ↦ x.alive ] in
      let living_of : Option (Slot fl) → Option fl.Carrier =
        λ o. elim o [ none ↦ none | some x ↦ if x.alive then some x.potential else none ] in
      elim (Option-cases (get_elem? s.slots n)) [
        | inl e ↦
            ap (λ o. whole (alive_of o)) e ∙ ap (λ o. pull so_far weight (living_of o)) (sym e)
        | inr (x, e) ↦ elim (Bool-cases x.alive) [
          | inl a ↦
              ap (λ o. whole (alive_of o)) e
              ∙ ap whole a
              ∙ ap (λ p. fl.add so_far (fl.mul weight p)) (get_or-map s.slots n e)
              ∙ ap (λ b. pull so_far weight (if b then some x.potential else none)) (sym a)
              ∙ ap (λ o. pull so_far weight (living_of o)) (sym e)
          | inr d ↦
              ap (λ o. whole (alive_of o)) e
              ∙ ap whole d
              ∙ ap (λ b. pull so_far weight (if b then some x.potential else none)) (sym d)
              ∙ ap (λ o. pull so_far weight (living_of o)) (sym e)
        ]
      ]

  coupling-input : (s : Scheduler fl) (i : ℕ) → coupling fl s i ≡ input s i
  unfolding coupling
  coupling-input s zero = pull-living s 1 fl.nought (bond s 0)
  coupling-input s (suc i) =
      let snapshot = map (λ (x : Slot fl). x.potential) s.slots in
      let lone : Bool → ℕ → fl.Carrier = λ first n.
        if first && is_alive fl s.slots n
        then fl.add fl.nought (fl.mul (bond s n) (get_or snapshot n fl.nought))
        else fl.nought in
      let both : fl.Carrier → ℕ → fl.Carrier = λ left n.
        if is_alive fl s.slots n
        then fl.add left (fl.mul (bond s (suc i)) (get_or snapshot n fl.nought))
        else left in
      ap (λ b. both (lone b (suc i - 1)) (suc i + 1)) {x = leb 1 (suc i)} {y = true} (ground arith)
      ∙ ap (λ n. both (lone true n) (suc i + 1)) {x = suc i - 1} {y = i} (omega arith)
      ∙ ap (both (lone true i)) {x = suc i + 1} {y = suc (suc i)} (omega arith)
      ∙ pull-living s (suc (suc i)) (lone true i) (bond s (suc i))
      ∙ ap (λ l. pull l (bond s (suc i)) (living s (suc (suc i))))
          (pull-living s i fl.nought (bond s i))

  -- Slot `j` of the list, which is slot `i0 + j` of the bank, after the accumulation.
  pub accumulate-at :
      (s : Scheduler fl) (i0 : ℕ) (xs : List (Slot fl)) (j : ℕ) {x : Slot fl}
      → get_elem? xs j ≡ some x
      → get_elem? (accumulate fl s i0 xs) j ≡ some (record x { potential = charge s (i0 + j) x })
  unfolding accumulate
  accumulate-at s i0 [] j h = cc
  accumulate-at s i0 (y ∷ ys) zero {x} h =
      let same : y ≡ x = cc in
      one_charged y
      ∙ ap (λ n. some (record y { potential = charge s n y })) {x = i0} {y = i0 + 0} (omega arith)
      ∙ ap (λ (z : Slot fl). some (record z { potential = charge s (i0 + 0) z })) same
    where
      one_charged :
          (y : Slot fl)
          → some (
              if y.alive
              then record y {
                potential =
                    fl.add y.potential (fl.add fl.bias (fl.mul fl.scale (coupling fl s i0)));
              }
              else y)
            ≡ some (record y { potential = charge s i0 y })
      one_charged y = elim (Bool-cases y.alive) [
        | inl a ↦ rw (a, coupling-input s i0) refl
        | inr d ↦ rw d refl
      ]
  accumulate-at s i0 (y ∷ ys) (suc j) {x} h =
      accumulate-at s (i0 + 1) ys j h
      ∙ ap (λ n. some (record x { potential = charge s n x })) {x = (i0 + 1) + j} {y = i0 + suc j}
          (omega arith)

  accumulate-past :
      (s : Scheduler fl) (i0 : ℕ) (xs : List (Slot fl)) (j : ℕ)
      → get_elem? xs j ≡ none
      → get_elem? (accumulate fl s i0 xs) j ≡ none
  unfolding accumulate
  accumulate-past s i0 [] j h = refl
  accumulate-past s i0 (y ∷ ys) zero h = cc
  accumulate-past s i0 (y ∷ ys) (suc j) h = accumulate-past s (i0 + 1) ys j h

  -- A slot after the accumulation is one before it, one_charged.
  pub accumulate-from :
      (s : Scheduler fl) (i : ℕ) (y : Slot fl)
      → get_elem? (accumulate fl s 0 s.slots) i ≡ some y
      → (x : Slot fl) × (get_elem? s.slots i ≡ some x) × (y ≡ record x { potential = charge s i x })
  accumulate-from s i y h = elim (Option-cases (get_elem? s.slots i)) [
    | inl e ↦
        absurd (
          let gone = accumulate-past s 0 s.slots i e in
          let bad : none ≡ some y = sym gone ∙ h in cc)
    | inr (x, e) ↦
        let there : some (record x { potential = charge s i x }) ≡ some y =
          ap (λ n. some (record x { potential = charge s n x })) {x = i} {y = 0 + i} (omega arith)
          ∙ sym (accumulate-at s 0 s.slots i e)
          ∙ h in
        (x, e, let same : record x { potential = charge s i x } ≡ y = cc in sym same)
  ]
