-- ===== src/Network/BootTests.antt =====
-- kernel/src/neurons.rs: init() on the empty network, with a weight on the drive.
use spikeling_os.Base.{List, ℕ, ◌*◌, ◌/◌, [], ◌∷◌, true, false, min, arith, replicate}
use spikeling_os.Ata.{Disk, store}
use spikeling_os.Ata.Persist.{weights_sector}
use spikeling_os.Ternary.Weights.{WeightFloats}
use spikeling_os.Network.Wired.{IsWired}
use spikeling_os.Network.Reach.{empty_network, tick_call, start, NetReaches-IsWired}
use spikeling_os.Network.Saved.{KeyConstants, left_key, motor_name, init}
use spikeling_os.Network.Boot.{
  BootCall, key_call, trial_call, net_call, boot_calls, Reports, init-IsWired,
}
use spikeling_os.Network.Tests.{whole}

abbrev levels : WeightFloats ℕ
levels = record {
  nought = 0;
  unit = 100;
  clamp_f32 = λ w lo hi. min w 100;
  mul = λ a b. a * b / 100;
  div = λ a b. a * 100 / b;
  of_u32 = λ n. n * 100;
  roundf = λ x. x;
  to_u32 = λ x. x / 100;
  scale_fits = λ w. omega arith;
}

abbrev constants : KeyConstants ℕ
constants = record {
  key_threshold = 100;
  key_leak = 5;
  motor_threshold = 80;
  motor_leak = 3;
  initial_weight = 50;
  key_stim_amount = 120;
}

-- The weight of the left key, and one of a synapse that is not there.
abbrev drive : Disk
drive =
    store 0 (weights_sector levels ((left_key, motor_name, 25) ∷ (motor_name, left_key, 75) ∷ []))
      (record { sectors = λ a. replicate 512 0; read_error = λ a. false; write_error = λ a. false })

-- The left key, a tick that hears it, a trial, and another tick.
abbrev calls : List (BootCall whole levels constants)
calls = key_call 97 ∷ net_call tick_call ∷ trial_call true 3 ∷ net_call tick_call ∷ []

init-IsWired_example :
    Reports whole levels constants drive (init whole levels constants drive (empty_network whole)).0
    × IsWired whole (
        boot_calls whole levels constants calls
          (init whole levels constants drive (empty_network whole)).1)
init-IsWired_example =
    init-IsWired whole levels constants drive (empty_network whole) calls
      (NetReaches-IsWired whole (empty_network whole) start)
