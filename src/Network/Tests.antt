-- ===== src/Network/Tests.antt =====
-- A network of two neurons, with whole numbers in place of f32.
use spikeling_os.Base.{
  ℕ, ◌+◌, ◌-◌, ◌*◌, ◌/◌, ◌≤◌, ◌<◌, ◌≡◌, refl, max, min, [], ◌∷◌, none, some, true, false, ltb, leb,
  ◌==◌, arith, get_elem?,
}
use spikeling_os.Network.{NetFloats, Neuron, Synapse, GenericNetwork, fast_tau_ticks}
use spikeling_os.Network.Learning.{first_period, golden_period}
use spikeling_os.Network.Tick.{step_neuron, tick}
use spikeling_os.Network.Wired.{IsWired}
use spikeling_os.Network.Reach.{
  empty_network, neuron_call, synapse_call, tick_call, run_call, start, next, NetReaches-IsWired,
}
use spikeling_os.Network.Rest.{rest_of, step_neuron-rests, tick-dormant}
use spikeling_os.Network.Golden.{IsFirstCoprime, golden_period-first}

abbrev pub whole : NetFloats
whole = record {
  Carrier = ℕ;
  nought = 0;
  unit = 1;
  spike_gain = 50;
  stdp_rate = 1;
  stdp_tau_ms = 20;
  tick_period_ms = 55;
  initial_evidence = 1;
  evidence_beta = 0;
  gate_on_threshold = 0;
  gate_off_threshold = 0;
  of_ticks = λ n. n;
  add = λ a b. a + b;
  sub = λ a b. a - b;
  mul = λ a b. a * b;
  div = λ a b. a / b;
  neg = λ a. a;
  max_of = max;
  min_of = min;
  expf = λ a. 1;
  lt = ltb;
  ge = λ a b. leb b a;
  same = λ a b. a == b;
  golden_start = λ n. 18;
}

abbrev wired : GenericNetwork whole
wired = run_call whole tick_call (
    run_call whole (synapse_call (1 ∷ []) (2 ∷ []) 1) (
      run_call whole (neuron_call (2 ∷ []) 80 3 7)
        (run_call whole (neuron_call (1 ∷ []) 100 5 7) (empty_network whole))))

NetReaches-IsWired_example : IsWired whole wired
NetReaches-IsWired_example = NetReaches-IsWired whole wired (
    next
      (next (next (next start (neuron_call (1 ∷ []) 100 5 7)) (neuron_call (2 ∷ []) 80 3 7))
        (synapse_call (1 ∷ []) (2 ∷ []) 1))
      tick_call)

abbrev key : Neuron whole
key = record {
  name = 1 ∷ [];
  v = 10;
  threshold = 100;
  leak = 5;
  fire_count = 0;
  last_fire_tick = none;
  refractory_ticks = 2;
  refractory_remaining = 0;
}

abbrev fired_key : Neuron whole
fired_key = record key { v = 0; fire_count = 1; last_fire_tick = some 9; refractory_remaining = 2 }

key_fires : step_neuron whole 9 120 key ≡ (true, fired_key)
unfolding step_neuron
key_fires = refl

step_neuron-rests_example :
    (leb 100 ((10 - 5) + 120) ≡ true)
    × (fired_key.last_fire_tick ≡ some 9)
    × (fired_key.fire_count ≡ 1)
    × ((rest_of whole 10 (120 ∷ 120 ∷ []) fired_key).0 ≡ false)
    × ((rest_of whole 10 (120 ∷ 120 ∷ []) fired_key).1.v ≡ 0)
    × ((rest_of whole 10 (120 ∷ 120 ∷ []) fired_key).1.fire_count ≡ 1)
step_neuron-rests_example =
    step_neuron-rests whole 9 120 (120 ∷ 120 ∷ []) key fired_key key_fires (omega arith)

abbrev dormant : Synapse whole
dormant = record {
  from = 0;
  to = 0;
  weight = 7;
  gate = false;
  evidence = 1;
  pending_pre_fire_tick = none;
}

-- The neuron fires, and the gate is turned on again.
abbrev asleep : GenericNetwork whole
asleep = record {
  neurons = key ∷ [];
  synapses = dormant ∷ [];
  pending_stimulus = 120 ∷ [];
  beep_ticks_remaining = 0;
  tick_count = 18;
}

tick-dormant_example :
    ((s' : Synapse whole) × (get_elem? (tick whole asleep).1.synapses 0 ≡ some s')
      × (s'.weight ≡ 7))
    × ((tick whole
          (record asleep { synapses = record dormant { weight = 9 } ∷ [] })).1.pending_stimulus
        ≡ (tick whole asleep).1.pending_stimulus)
    × ((tick whole (record asleep { synapses = record dormant { weight = 9 } ∷ [] })).1.neurons
        ≡ (tick whole asleep).1.neurons)
tick-dormant_example = tick-dormant whole asleep 0 dormant 9 refl refl

golden_period-first_example :
    IsFirstCoprime fast_tau_ticks
      (first_period whole fast_tau_ticks)
      (golden_period whole fast_tau_ticks)
    × (2 ≤ golden_period whole fast_tau_ticks)
    × (golden_period whole fast_tau_ticks < first_period whole fast_tau_ticks + fast_tau_ticks)
golden_period-first_example = golden_period-first whole
