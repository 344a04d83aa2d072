-- ===== src/Scheduler.antt =====
-- kernel/src/scheduler.rs: the bank of task slots and its choice of the next task.
-- f32 is a parameter, with the operations that the code applies to it. A comparison is a Boolean:
-- the panic of `partial_cmp(..).unwrap()` on a NaN is not modelled.
pub mod Choice
pub mod Charge
pub mod Best
pub mod Step
mod Tests
use spikeling_os.Base.{
  ℕ, zero, suc, ◌+◌, ◌-◌, ◌%◌, ◌^◌, ◌==◌, ◌&&◌, leb, ltb, List, [], ◌∷◌, ◌++◌, map, Bool, true,
  false, not, Option, none, some, if◌then◌else◌, length, get_elem?, get_or, set, replicate,
}

-- `f32` and its constants.
pub record Floats : Type 1 where
  pub Carrier : Type 0
  pub nought : Carrier
  pub unit : Carrier
  pub bias : Carrier
  pub threshold : Carrier
  pub scale : Carrier
  pub add : Carrier → Carrier → Carrier
  pub sub : Carrier → Carrier → Carrier
  pub mul : Carrier → Carrier → Carrier
  pub ge : Carrier → Carrier → Bool
  pub gt : Carrier → Carrier → Bool

pub record TaskSlot (F : Type 0) : Type 0 where
  pub alive : Bool
  pub potential : F
  pub fire_count : ℕ

-- `bias` and `threshold` always hold the constants, which `Floats` gives.
pub record TopologicalScheduler (F : Type 0) : Type 0 where
  pub slots : List (TaskSlot F)
  pub bonds : List F
  pub g : F

-- The update that `slots.get_mut(id)` allows: none if there is no such slot.
abbrev pub update {ℓ} : {A : Type ℓ} → List A → ℕ → (A → A) → List A
update [] i f = []
update (x ∷ xs) zero f = f x ∷ xs
update (x ∷ xs) (suc i) f = x ∷ update xs i f

module _ (fl : Floats) where
  abbrev pub Slot : Type 0
  Slot = TaskSlot fl.Carrier

  abbrev pub Scheduler : Type 0
  Scheduler = TopologicalScheduler fl.Carrier

  -- `(0..n).map(…)`, from `i` on with `n` to go.
  unfoldable pub alternate : fl.Carrier → ℕ → ℕ → List fl.Carrier
  alternate g i zero = []
  alternate g i (suc n) =
      (if i % 2 == 0 then fl.sub fl.unit g else fl.add fl.unit g) ∷ alternate g (i + 1) n

  abbrev pub ssh_bonds : ℕ → fl.Carrier → List fl.Carrier
  ssh_bonds n g = alternate g 0 (n - 1)

  abbrev pub fresh_slot : Slot
  fresh_slot = record { alive = true; potential = fl.nought; fire_count = 0 }

  unfoldable pub new_scheduler : ℕ → fl.Carrier → Scheduler
  new_scheduler n g = record { slots = replicate n fresh_slot; bonds = ssh_bonds n g; g = g }

  unfoldable pub kill_slot : ℕ → Scheduler → Scheduler
  kill_slot id s = record s {
    slots = update s.slots id (λ x. record x { alive = false; potential = fl.nought });
  }

  -- `add_slot()`, which returns the new slot's index.
  unfoldable pub add_slot : Scheduler → ℕ × Scheduler
  add_slot s =
      let slots = s.slots ++ fresh_slot ∷ [] in
      (length slots - 1, record s { slots = slots; bonds = ssh_bonds (length slots) s.g })

  unfoldable pub revive : ℕ → Scheduler → Scheduler
  revive id s = record s { slots = update s.slots id (λ _. fresh_slot) }

  abbrev pub is_alive : List Slot → ℕ → Bool
  is_alive slots i = elim (get_elem? slots i) [ none ↦ false | some x ↦ x.alive ]

  -- The input of slot `i` from its living neighbours.
  unfoldable pub coupling : Scheduler → ℕ → fl.Carrier
  coupling s i =
      let snapshot = map (λ x. x.potential) s.slots in
      let left : fl.Carrier =
        if leb 1 i && is_alive s.slots (i - 1)
        then fl.add fl.nought
            (fl.mul (get_or s.bonds (i - 1) fl.nought) (get_or snapshot (i - 1) fl.nought))
        else fl.nought in
      if is_alive s.slots (i + 1)
      then fl.add left (fl.mul (get_or s.bonds i fl.nought) (get_or snapshot (i + 1) fl.nought))
      else left

  -- One round of the accumulation, from slot `i` on. It reads the other slots' `alive` and their old
  -- potentials, none of which it changes.
  unfoldable pub accumulate : Scheduler → ℕ → List Slot → List Slot
  accumulate s i [] = []
  accumulate s i (x ∷ xs) =
      let rest = accumulate s (i + 1) xs in
      let grown = record x {
        potential = fl.add x.potential (fl.add fl.bias (fl.mul fl.scale (coupling s i)));
      } in
      (if x.alive then grown else x) ∷ rest

  abbrev pub is_ready : Slot → Bool
  is_ready x = x.alive && fl.ge x.potential fl.threshold

  -- `max_by`: of several equal ones the last.
  abbrev pub better : ℕ → fl.Carrier → Option (ℕ × fl.Carrier) → ℕ × fl.Carrier
  better i new none = (i, new)
  better i new (some (j, old)) = if fl.gt old new then (j, old) else (i, new)

  unfoldable pub choose : ℕ → List Slot → Option (ℕ × fl.Carrier) → Option (ℕ × fl.Carrier)
  choose i [] best = best
  choose i (x ∷ xs) best =
      choose (i + 1) xs (if is_ready x then some (better i x.potential best) else best)

  abbrev pub fire : Slot → Slot
  fire x = record x { potential = fl.nought; fire_count = (x.fire_count + 1) % 2 ^ 32 }

  unfoldable pub step : Scheduler → Option ℕ × Scheduler
  step s =
      let slots = accumulate s 0 s.slots in
      elim (choose 0 slots none) [
        | none ↦ (none, record s { slots = slots })
        | some (i, p) ↦ (some i, record s { slots = update slots i fire })
      ]
