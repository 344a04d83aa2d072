-- ===== src/Ata/Persist/Tests.antt =====
-- Two named weights on a drive of empty sectors, with hundredths in the place of f32.
use spikeling_os.Base.{
  ℕ, ◌*◌, ◌/◌, ◌≡◌, refl, List, [], ◌∷◌, map, some, false, min, arith, take, replicate,
}
use spikeling_os.Base.Utf8.{is_utf8, utf8_from}
use spikeling_os.Base.Result.{ok}
use spikeling_os.Ata.{Disk, store, write_sector}
use spikeling_os.Ata.Persist.{max_synapses, weights_sector, save_weights, load_weights}
use spikeling_os.Ata.Persist.RoundTrip.{FitsField, restored, load_weights-save_weights}
use spikeling_os.Ternary.Weights.{WeightFloats}

abbrev hundredths : WeightFloats ℕ
hundredths = record {
  nought = 0;
  unit = 100;
  clamp_f32 = λ w lo hi. min w 100;
  mul = λ a b. a * b / 100;
  div = λ a b. a * 100 / b;
  of_u32 = λ n. n * 100;
  roundf = λ x. x;
  to_u32 = λ x. x / 100;
  scale_fits = λ w. omega arith;
}

abbrev left : List ℕ
left = 76 ∷ 101 ∷ 102 ∷ 116 ∷ []

abbrev motor : List ℕ
motor = 77 ∷ 111 ∷ 116 ∷ 111 ∷ 114 ∷ []

abbrev empty_disk : Disk
empty_disk = record {
  sectors = λ a. replicate 512 0;
  read_error = λ a. false;
  write_error = λ a. false;
}

abbrev weights : List (List ℕ × List ℕ × ℕ)
weights = (left, motor, 50) ∷ (motor, left, 250) ∷ []

abbrev saved_disk : Disk
saved_disk = store 0 (weights_sector hundredths weights) empty_disk

weights_saved : save_weights hundredths weights empty_disk ≡ ok saved_disk
unfolding save_weights write_sector
weights_saved = refl

left_fits : FitsField left
unfolding is_utf8 utf8_from
left_fits = record {
  short = omega arith;
  no_zero = (omega arith, (omega arith, (omega arith, (omega arith, tt))));
  text = refl;
}

motor_fits : FitsField motor
unfolding is_utf8 utf8_from
motor_fits = record {
  short = omega arith;
  no_zero = (omega arith, (omega arith, (omega arith, (omega arith, (omega arith, tt)))));
  text = refl;
}

load_weights-save_weights_example :
    load_weights hundredths saved_disk
    ≡ some (map (restored hundredths) (take max_synapses weights))
load_weights-save_weights_example =
    load_weights-save_weights hundredths weights empty_disk saved_disk
      (left_fits, motor_fits, (motor_fits, left_fits, tt)) weights_saved refl
