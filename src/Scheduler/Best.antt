-- ===== src/Scheduler/Best.antt =====
-- kernel/src/scheduler.rs: the choice of the slot with the highest potential.
use spikeling_os.Base.{
  ℕ, zero, suc, ◌+◌, ◌≤◌, ◌≡◌, ◌⊎◌, refl, ap, sym, ◌∙◌, List, [], ◌∷◌, true, false, Option, none,
  some, if◌then◌else◌, arith, get_elem?, Bool-cases, inl, inr,
}
use spikeling_os.Scheduler.{Floats, Slot, is_ready, better, choose}

-- The comparison of floats that are no NaN: of two one is not greater, and so on along a chain.
pub record IsOrder (fl : Floats) : Type 0 where
  pub asym : (a b : fl.Carrier) → fl.gt a b ≡ true → fl.gt b a ≡ false
  pub trans : (a b c : fl.Carrier) → fl.gt a b ≡ false → fl.gt b c ≡ false → fl.gt a c ≡ false

module _ (fl : Floats) where
  better-cases :
      (i : ℕ) (new : fl.Carrier) (best : Option (ℕ × fl.Carrier))
      → (better fl i new best ≡ (i, new))
        ⊎ ((j : ℕ) × (old : fl.Carrier) × (best ≡ some (j, old))
            × (better fl i new best ≡ (j, old))
            × (fl.gt old new ≡ true))
  better-cases i new none = inl refl
  better-cases i new (some (j, old)) = elim (Bool-cases (fl.gt old new)) [
    | inl e ↦ inr (j, old, refl, rw e refl, e)
    | inr e ↦ inl (rw e refl)
  ]

  -- What is chosen is what was best before, or a slot that is ready, with its potential.
  pub choose-found :
      (i0 : ℕ) (xs : List (Slot fl)) (best : Option (ℕ × fl.Carrier)) {i : ℕ} {p : fl.Carrier}
      → choose fl i0 xs best ≡ some (i, p)
      → (best ≡ some (i, p))
        ⊎ ((j : ℕ) × (x : Slot fl) × (i ≡ i0 + j)
            × (get_elem? xs j ≡ some x)
            × (is_ready fl x ≡ true)
            × (p ≡ x.potential))
  unfolding choose
  choose-found i0 [] best h = inl h
  choose-found i0 (x ∷ xs) best {i} {p} h = elim (Bool-cases (is_ready fl x)) [
    | inl ready ↦
        elim (choose-found (i0 + 1) xs (some (better fl i0 x.potential best)) {i = i} {p = p}
          (rw ready at h)) [
            | inl e ↦ elim (better-cases i0 x.potential best) [
              | inl new ↦
                  let same : some (i0, x.potential) ≡ some (i, p) = ap some (sym new) ∙ e in
                  let at_i : i0 ≡ i = cc in
                  let value : x.potential ≡ p = cc in
                  inr (0, x, omega arith, refl, ready, sym value)
              | inr (j, old, was, kept, more) ↦ inl (was ∙ ap some (sym kept) ∙ e)
            ]
            | inr (j, y, same, at, r, v) ↦ inr (suc j, y, omega arith, at, r, v)
          ]
    | inr idle ↦ elim (choose-found (i0 + 1) xs best {i = i} {p = p} (rw idle at h)) [
      | inl e ↦ inl e
      | inr (j, y, same, at, r, v) ↦ inr (suc j, y, omega arith, at, r, v)
    ]
  ]

module _ (fl : Floats) (order : IsOrder fl) where
  gt_irrefl : (a : fl.Carrier) → fl.gt a a ≡ false
  gt_irrefl a = elim (Bool-cases (fl.gt a a)) [ inl e ↦ order.asym a a e | inr e ↦ e ]

  -- The best so far is never above what is chosen, and gives way only to a slot after it.
  choose-grows :
      (i0 : ℕ) (xs : List (Slot fl)) (j : ℕ) (old : fl.Carrier) {i : ℕ} {p : fl.Carrier}
      → choose fl i0 xs (some (j, old)) ≡ some (i, p)
      → (fl.gt old p ≡ false) × (((i ≡ j) × (p ≡ old)) ⊎ (i0 ≤ i))
  unfolding choose
  choose-grows i0 [] j old {i} {p} h =
      let at : j ≡ i = cc in
      let value : old ≡ p = cc in
      (ap (fl.gt old) (sym value) ∙ gt_irrefl old, inl (sym at, sym value))
  choose-grows i0 (x ∷ xs) j old {i} {p} h = elim (Bool-cases (is_ready fl x)) [
    | inl ready ↦ elim (Bool-cases (fl.gt old x.potential)) [
      | inl more ↦
          let (below, after) =
            choose-grows (i0 + 1) xs j old {i = i} {p = p} (rw (ready, more) at h) in
          (below, elim after [ inl e ↦ inl e | inr e ↦ inr (omega arith) ])
      | inr less ↦
          let (below, after) =
            choose-grows (i0 + 1) xs i0 x.potential {i = i} {p = p} (rw (ready, less) at h) in
          (
            order.trans old x.potential p less below,
            inr (elim after [ inl (e, v) ↦ omega (arith, e) | inr e ↦ omega arith ]),
          )
    ]
    | inr idle ↦
        let (below, after) = choose-grows (i0 + 1) xs j old {i = i} {p = p} (rw idle at h) in
        (below, elim after [ inl e ↦ inl e | inr e ↦ inr (omega arith) ])
  ]

  -- No slot that is ready is above what is chosen, and one after it is below.
  pub choose-best :
      (i0 : ℕ) (xs : List (Slot fl)) (best : Option (ℕ × fl.Carrier)) (k : ℕ) {i : ℕ}
      {p : fl.Carrier} {y : Slot fl}
      → choose fl i0 xs best ≡ some (i, p)
      → get_elem? xs k ≡ some y
      → is_ready fl y ≡ true
      → (fl.gt y.potential p ≡ false) × ((i0 + k ≤ i) ⊎ (fl.gt p y.potential ≡ true))
  unfolding choose
  choose-best i0 [] best k h at ready = cc
  choose-best i0 (x ∷ xs) best zero {i} {p} {y} h at ready =
      let same : x ≡ y = cc in
      let x_ready : is_ready fl x ≡ true = ap (is_ready fl) same ∙ ready in
      let v : x.potential ≡ y.potential = ap (λ (z : Slot fl). z.potential) same in
      let rest : choose fl (i0 + 1) xs (some (better fl i0 x.potential best)) ≡ some (i, p) =
        rw x_ready at h in
      elim (better-cases fl i0 x.potential best) [
        | inl new ↦
            let (below, after) =
              choose-grows (i0 + 1) xs i0 x.potential {i = i} {p = p}
                (ap (λ b. choose fl (i0 + 1) xs (some b)) (sym new) ∙ rest) in
            (
              ap (λ q. fl.gt q p) (sym v) ∙ below,
              inl (elim after [ inl (e, w) ↦ omega (arith, e) | inr e ↦ omega arith ]),
            )
        | inr (j, old, was, kept, more) ↦
            let (below, after) =
              choose-grows (i0 + 1) xs j old {i = i} {p = p}
                (ap (λ b. choose fl (i0 + 1) xs (some b)) (sym kept) ∙ rest) in
            (
              ap (λ q. fl.gt q p) (sym v)
                  ∙ order.trans x.potential old p (order.asym old x.potential more) below,
              elim after [
                | inl (e, w) ↦
                    inr (ap (λ q. fl.gt q y.potential) w ∙ (ap (fl.gt old) (sym v) ∙ more))
                | inr e ↦ inl (omega arith)
              ],
            )
      ]
  choose-best i0 (x ∷ xs) best (suc k) {i} {p} {y} h at ready =
      let (below, after) =
        choose-best (i0 + 1) xs
          (if is_ready fl x then some (better fl i0 x.potential best) else best) k {i = i} {p = p}
          {y = y} h at ready in
      (below, elim after [ inl e ↦ inl (omega arith) | inr e ↦ inr e ])
