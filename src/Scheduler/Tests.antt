-- ===== src/Scheduler/Tests.antt =====
-- A bank of two slots of kernel/src/scheduler.rs, with hundredths in the place of f32.
use spikeling_os.Base.{
  ℕ, arith, ◌+◌, ◌-◌, ◌*◌, ◌/◌, leb, ltb, ◌&&◌, ◌≡◌, ◌⊎◌, refl, [], ◌∷◌, none, some, true, false,
  length,
}
use spikeling_os.Scheduler.{
  Floats, Slot, Scheduler, coupling, new_scheduler, kill_slot, add_slot, revive, accumulate, choose,
  step,
}
use spikeling_os.Scheduler.Choice.{IsSized, operations-IsSized}
use spikeling_os.Scheduler.Charge.{charge}
use spikeling_os.Scheduler.Best.{IsOrder}
use spikeling_os.Scheduler.Step.{Ready, Highest, After, step_lem}

abbrev pub hundredths : Floats
hundredths = record {
  Carrier = ℕ;
  nought = 0;
  unit = 100;
  bias = 15;
  threshold = 100;
  scale = 5;
  add = λ a b. a + b;
  sub = λ a b. a - b;
  mul = λ a b. a * b / 100;
  ge = λ a b. leb b a;
  gt = λ a b. ltb b a;
}

abbrev slot : ℕ → Slot hundredths
slot p = record { alive = true; potential = p; fire_count = 3 }

abbrev bank : Scheduler hundredths
bank = record { slots = slot 90 ∷ slot 10 ∷ []; bonds = 40 ∷ []; g = 60 }

bank_chosen : (step hundredths bank).0 ≡ some 0
unfolding step accumulate coupling choose
bank_chosen = refl

hundredths-IsOrder : IsOrder hundredths
hundredths-IsOrder = record { asym = λ a b h. ground arith; trans = λ a b c h k. ground arith }

step_lem_example :
    (((step hundredths bank).0 ≡ none)
      ⊎ ((i : ℕ) × (z : Slot hundredths) × ((step hundredths bank).0 ≡ some i)
          × Ready hundredths bank i z))
    × (((true && leb 100 (charge hundredths bank 0 (slot 90))) ≡ false)
        ⊎ Highest hundredths bank 0 (slot 90))
    × After hundredths bank 0 (slot 90)
    × (length (step hundredths bank).1.slots ≡ length bank.slots)
    × ((step hundredths bank).1.bonds ≡ bank.bonds)
step_lem_example = step_lem hundredths hundredths-IsOrder bank 0 (slot 90) refl

operations-IsSized_example :
    IsSized hundredths (new_scheduler hundredths 3 60)
    × IsSized hundredths (add_slot hundredths bank).1
    × IsSized hundredths (kill_slot hundredths 1 bank)
    × IsSized hundredths (revive hundredths 1 bank)
    × IsSized hundredths (step hundredths bank).1
operations-IsSized_example = operations-IsSized hundredths 3 1 60 bank refl
