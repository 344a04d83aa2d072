-- ===== src/Scheduler/Step.antt =====
-- kernel/src/scheduler.rs, step(): which slot it selects, and what it leaves in each.
use spikeling_os.Base.{
  ℕ, ◌+◌, ◌%◌, ◌^◌, ◌≤◌, ◌≡◌, ◌≢◌, ◌⊎◌, ap, sym, ◌∙◌, ◌&&◌, true, false, none, some, arith, length,
  get_elem?, Bool-cases, Option-cases, inl, inr, ℕ_discrete,
}
use spikeling_os.Scheduler.{
  Floats, update, Slot, Scheduler, accumulate, is_ready, choose, fire, step,
}
use spikeling_os.Scheduler.Choice.{
  choose-none, get_elem?-update, get_elem?-update_other, step-chosen, step-none, step-keeps,
}
use spikeling_os.Scheduler.Charge.{charge, accumulate-at, accumulate-from}
use spikeling_os.Scheduler.Best.{IsOrder, choose-found, choose-best}

module _ (fl : Floats) where
  -- Slot `i` of the bank holds `z`, alive and with its charge at the threshold.
  abbrev pub Ready : Scheduler fl → ℕ → Slot fl → Type 0
  Ready s i z =
      (get_elem? s.slots i ≡ some z) × ((z.alive && fl.ge (charge fl s i z) fl.threshold) ≡ true)

  -- The slot that step() selects is ready, and `x`, which slot `k` holds, is charged no higher; behind it,
  -- lower.
  pub record Highest (s : Scheduler fl) (k : ℕ) (x : Slot fl) : Type 0 where
    pub chosen : ℕ
    pub slot : Slot fl
    pub selected : (step fl s).0 ≡ some chosen
    pub ready_there : Ready s chosen slot
    pub not_above : fl.gt (charge fl s k x) (charge fl s chosen slot) ≡ false
    pub last : (k ≤ chosen) ⊎ (fl.gt (charge fl s chosen slot) (charge fl s k x) ≡ true)

  -- Slot `k` after the step: fired when selected, and else charged.
  abbrev pub After : Scheduler fl → ℕ → Slot fl → Type 0
  After s k x =
      (((step fl s).0 ≡ some k)
        × (get_elem? (step fl s).1.slots k
            ≡ some (record x { potential = fl.nought; fire_count = (x.fire_count + 1) % 2 ^ 32 })))
      ⊎ (((step fl s).0 ≢ some k)
          × (get_elem? (step fl s).1.slots k ≡ some (record x { potential = charge fl s k x })))

module _ (fl : Floats) (order : IsOrder fl) where
  found :
      (s : Scheduler fl) (i : ℕ) (p : fl.Carrier)
      → choose fl 0 (accumulate fl s 0 s.slots) none ≡ some (i, p)
      → (z : Slot fl) × Ready fl s i z × (p ≡ charge fl s i z)
  found s i p e = elim (choose-found fl 0 (accumulate fl s 0 s.slots) none {i = i} {p = p} e) [
    | inl old ↦ absurd cc
    | inr (j, y, same, at, ready, v) ↦
        let here : j ≡ i = omega (arith, same) in
        let (z, there, charged) =
          accumulate-from fl s i y (ap (get_elem? (accumulate fl s 0 s.slots)) (sym here) ∙ at) in
        (
          z,
          (there, ap (is_ready fl) (sym charged) ∙ ready),
          v ∙ ap (λ (q : Slot fl). q.potential) charged,
        )
  ]

  charged_at :
      (s : Scheduler fl) (k : ℕ) (x : Slot fl)
      → get_elem? s.slots k ≡ some x
      → get_elem? (accumulate fl s 0 s.slots) k ≡ some (record x { potential = charge fl s k x })
  charged_at s k x at =
      accumulate-at fl s 0 s.slots k at
      ∙ ap (λ n. some (record x { potential = charge fl s n x })) {x = 0 + k} {y = k} (omega arith)

  step-After :
      (s : Scheduler fl) (k : ℕ) (x : Slot fl) → get_elem? s.slots k ≡ some x → After fl s k x
  step-After s k x at = elim (Option-cases (choose fl 0 (accumulate fl s 0 s.slots) none)) [
    | inl e ↦
        let chosen : (step fl s).0 ≡ none = ap (λ r. r.0) (step-none fl s e) in
        inr (
          λ h. let bad : none ≡ some k = sym chosen ∙ h in cc,
          ap (λ r. get_elem? r.1.slots k) (step-none fl s e) ∙ charged_at s k x at,
        )
    | inr ((i, p), e) ↦
        let chosen : (step fl s).0 ≡ some i = ap (λ r. r.0) (step-chosen fl s i p e) in
        let slots = ap (λ r. get_elem? r.1.slots k) (step-chosen fl s i p e) in
        elim (ℕ_discrete i k) [
          | yes same ↦ inl (
            chosen ∙ ap some same,
            slots
                ∙ ap (λ n. get_elem? (update (accumulate fl s 0 s.slots) n (fire fl)) k) same
                ∙ get_elem?-update (accumulate fl s 0 s.slots) k (fire fl) (charged_at s k x at),
          )
          | no other ↦ inr (
            λ h. let back : some i ≡ some k = sym chosen ∙ h in other cc,
            slots
                ∙ get_elem?-update_other (accumulate fl s 0 s.slots) i k (fire fl) other
                ∙ charged_at s k x at,
          )
        ]
  ]

  highest :
      (s : Scheduler fl) (k : ℕ) (x : Slot fl)
      → get_elem? s.slots k ≡ some x
      → ((x.alive && fl.ge (charge fl s k x) fl.threshold) ≡ false) ⊎ Highest fl s k x
  highest s k x at = elim (Bool-cases (x.alive && fl.ge (charge fl s k x) fl.threshold)) [
    | inr idle ↦ inl idle
    | inl ready ↦ elim (Option-cases (choose fl 0 (accumulate fl s 0 s.slots) none)) [
      | inl e ↦
          let idle = choose-none fl 0 (accumulate fl s 0 s.slots) k e (charged_at s k x at) in
          absurd (let bad : true ≡ false = sym ready ∙ idle in cc)
      | inr ((i, p), e) ↦
          let (z, z_ready, v) = found s i p e in
          let (below, after) =
            choose-best fl order 0 (accumulate fl s 0 s.slots) none k {i = i} {p = p} e
              (charged_at s k x at) ready in
          inr (record {
            chosen = i;
            slot = z;
            selected = ap (λ r. r.0) (step-chosen fl s i p e);
            ready_there = z_ready;
            not_above = ap (fl.gt (charge fl s k x)) (sym v) ∙ below;
            last = elim after [
              | inl le ↦ inl (omega arith)
              | inr lt ↦ inr (ap (λ q. fl.gt q (charge fl s k x)) (sym v) ∙ lt)
            ];
          })
    ]
  ]

  selection :
      (s : Scheduler fl)
      → ((step fl s).0 ≡ none)
        ⊎ ((i : ℕ) × (z : Slot fl) × ((step fl s).0 ≡ some i) × Ready fl s i z)
  selection s = elim (Option-cases (choose fl 0 (accumulate fl s 0 s.slots) none)) [
    | inl e ↦ inl (ap (λ r. r.0) (step-none fl s e))
    | inr ((i, p), e) ↦
        let (z, z_ready, v) = found s i p e in
        inr (i, z, ap (λ r. r.0) (step-chosen fl s i p e), z_ready)
  ]

  -- A step of the bank, seen from slot `k`, which holds `x`. In the round every living slot is charged by
  -- the bias and its scaled input, the sum over its living neighbours of bond times old potential.
  -- What step() selects, if anything, is a living slot whose charge has reached the threshold. When
  -- slot `k` is such a slot, one is selected, and the charge of `k` is not greater than that one's;
  -- it is smaller if `k` comes after it. A slot that is selected has its potential set to 0 and its
  -- count of firings, which wraps at 2 ^ 32, raised by one; every other slot has its charge for a
  -- potential and is otherwise as it was. The slots are as many and the bonds the same. The floats
  -- that are compared are taken to be no NaN.
  pub step_lem :
      (s : Scheduler fl) (k : ℕ) (x : Slot fl)
      → get_elem? s.slots k ≡ some x
      → (((step fl s).0 ≡ none)
          ⊎ ((i : ℕ) × (z : Slot fl) × ((step fl s).0 ≡ some i) × Ready fl s i z))
        × (((x.alive && fl.ge (charge fl s k x) fl.threshold) ≡ false) ⊎ Highest fl s k x)
        × After fl s k x
        × (length (step fl s).1.slots ≡ length s.slots)
        × ((step fl s).1.bonds ≡ s.bonds)
  step_lem s k x at = (
    selection s,
    highest s k x at,
    step-After s k x at,
    (step-keeps fl s k).1,
    (step-keeps fl s k).2,
  )
