-- ===== src/Network/Names.antt =====
-- kernel/src/network.rs: the operations that name neurons: add_neuron(), add_synapse(), stimulate(),
-- train_synapse(), apply_synapse_weight(), seed_fixed_network() and the lookups.
use spikeling_os.Base.{
  ℕ, ◌==◌, List, [], ◌∷◌, ◌++◌, map, Option, none, some, is_some, Bool, true, false, ◌&&◌,
  if◌then◌else◌, get_elem?, bytes_eq, position,
}
use spikeling_os.Base.Result.{Result, ok, err, ◌>>=◌, ok_or}
use spikeling_os.Scheduler.{update}
use spikeling_os.Network.{NetFloats, Neuron, Synapse, GenericNetwork, add_u64, inc_u32}
use spikeling_os.Network.Learning.{apply_stdp}

pub data NetError : Type 0 where
  already_exists : List ℕ → NetError
  no_such_neuron : List ℕ → NetError
  no_synapse : List ℕ → List ℕ → NetError

module _ (fl : NetFloats) where
  unfoldable pub find : List ℕ → GenericNetwork fl → Option ℕ
  find name net = position (λ (n : Neuron fl). bytes_eq n.name name) net.neurons

  abbrev pub new_neuron : List ℕ → fl.Carrier → fl.Carrier → ℕ → Neuron fl
  new_neuron name threshold leak refractory_ticks = record {
    name = name;
    v = fl.nought;
    threshold = threshold;
    leak = leak;
    fire_count = 0;
    last_fire_tick = none;
    refractory_ticks = refractory_ticks;
    refractory_remaining = 0;
  }

  unfoldable pub add_neuron :
      List ℕ → fl.Carrier → fl.Carrier → ℕ → GenericNetwork fl → Result NetError (GenericNetwork fl)
  add_neuron name threshold leak refractory_ticks net =
      if is_some (find name net)
      then err (already_exists name)
      else ok (record net {
        neurons = net.neurons ++ (new_neuron name threshold leak refractory_ticks ∷ []);
        pending_stimulus = net.pending_stimulus ++ (fl.nought ∷ []);
      })

  abbrev pub new_synapse : ℕ → ℕ → fl.Carrier → Synapse fl
  new_synapse from to weight = record {
    from = from;
    to = to;
    weight = weight;
    gate = true;
    evidence = fl.initial_evidence;
    pending_pre_fire_tick = none;
  }

  unfoldable pub add_synapse :
      List ℕ → List ℕ → fl.Carrier → GenericNetwork fl → Result NetError (GenericNetwork fl)
  add_synapse from to weight net = do
    from_i ← ok_or (find from net) (no_such_neuron from)
    to_i ← ok_or (find to net) (no_such_neuron to)
    ok (record net { synapses = net.synapses ++ (new_synapse from_i to_i weight ∷ []) })

  unfoldable pub stimulate :
      List ℕ → fl.Carrier → GenericNetwork fl → Result NetError (GenericNetwork fl)
  stimulate name amount net = do
    i ← ok_or (find name net) (no_such_neuron name)
    ok (record net { pending_stimulus = update net.pending_stimulus i (λ p. fl.add p amount) })

  -- The first synapse between two neurons.
  unfoldable pub find_synapse : ℕ → ℕ → GenericNetwork fl → Option ℕ
  find_synapse from_i to_i net =
      position (λ (s : Synapse fl). (s.from == from_i) && (s.to == to_i)) net.synapses

  abbrev pub fire_at : ℕ → Neuron fl → Neuron fl
  fire_at t n = record n { last_fire_tick = some t; fire_count = inc_u32 n.fire_count }

  abbrev pub last_fire_of : List (Neuron fl) → ℕ → Option ℕ
  last_fire_of ns i = elim (get_elem? ns i) [ none ↦ none | some n ↦ n.last_fire_tick ]

  -- train_synapse() once it has found its synapse: the two firings, a gap apart, and the learning.
  unfoldable pub train : ℕ → ℕ → ℕ → ℕ → Bool → GenericNetwork fl → GenericNetwork fl
  train from_i to_i syn_i gap_ticks pre_first net =
      let t_a = net.tick_count in
      let t_b = add_u64 t_a gap_ticks in
      let ns =
        if pre_first
        then update (update net.neurons from_i (fire_at t_a)) to_i (fire_at t_b)
        else update (update net.neurons to_i (fire_at t_a)) from_i (fire_at t_b) in
      record net {
        neurons = ns;
        synapses = update net.synapses syn_i (λ s. record s {
          weight = apply_stdp fl s.weight (last_fire_of ns from_i) (last_fire_of ns to_i);
        });
        tick_count = add_u64 t_b 1;
      }

  unfoldable pub weight_at : ℕ → GenericNetwork fl → fl.Carrier
  weight_at i net = elim (get_elem? net.synapses i) [ none ↦ fl.nought | some s ↦ s.weight ]

  -- The weights before and after.
  unfoldable pub train_synapse :
      List ℕ
      → List ℕ
      → ℕ
      → Bool
      → GenericNetwork fl
      → Result NetError ((fl.Carrier × fl.Carrier) × GenericNetwork fl)
  train_synapse from to gap_ticks pre_first net = do
    from_i ← ok_or (find from net) (no_such_neuron from)
    to_i ← ok_or (find to net) (no_such_neuron to)
    syn_i ← ok_or (find_synapse from_i to_i net) (no_synapse from to)
    let net' = train from_i to_i syn_i gap_ticks pre_first net in
        ok ((weight_at syn_i net, weight_at syn_i net'), net')

  -- A call whose error is thrown away, `let _ = …`.
  abbrev pub attempt :
      (GenericNetwork fl → Result NetError (GenericNetwork fl))
      → GenericNetwork fl
      → GenericNetwork fl
  attempt f net = elim (f net) [ ok net' ↦ net' | err e ↦ net ]

  unfoldable pub seed_fixed_network :
      List ℕ
      → List ℕ
      → List ℕ
      → fl.Carrier × fl.Carrier
      → fl.Carrier × fl.Carrier
      → ℕ
      → fl.Carrier × fl.Carrier
      → GenericNetwork fl
      → GenericNetwork fl
  seed_fixed_network left right motor (key_threshold, key_leak) (motor_threshold, motor_leak)
        refractory_ticks (left_weight, right_weight) net =
      if is_some (find left net)
      then net
      else attempt (add_synapse right motor right_weight) (
          attempt (add_synapse left motor left_weight) (
            attempt (add_neuron motor motor_threshold motor_leak refractory_ticks) (
              attempt (add_neuron right key_threshold key_leak refractory_ticks)
                (attempt (add_neuron left key_threshold key_leak refractory_ticks) net))))

  unfoldable pub neuron_state : List ℕ → GenericNetwork fl → Option (fl.Carrier × ℕ)
  neuron_state name net = elim (find name net) [
    | none ↦ none
    | some i ↦ elim (get_elem? net.neurons i) [ none ↦ none | some n ↦ some (n.v, n.fire_count) ]
  ]

  -- The first synapse between two named neurons, by its index.
  unfoldable pub index_named : List ℕ → List ℕ → GenericNetwork fl → Option ℕ
  index_named from to net = elim (find from net) [
    | none ↦ none
    | some from_i ↦ elim (find to net) [ none ↦ none | some to_i ↦ find_synapse from_i to_i net ]
  ]

  unfoldable pub synapse_named : List ℕ → List ℕ → GenericNetwork fl → Option (Synapse fl)
  synapse_named from to net = elim (index_named from to net) [
    | none ↦ none
    | some i ↦ get_elem? net.synapses i
  ]

  unfoldable pub synapse_weight : List ℕ → List ℕ → GenericNetwork fl → Option fl.Carrier
  synapse_weight from to net = elim (synapse_named from to net) [
    | none ↦ none
    | some s ↦ some s.weight
  ]

  unfoldable pub synapse_gate_state :
      List ℕ → List ℕ → GenericNetwork fl → Option (Bool × fl.Carrier)
  synapse_gate_state from to net = elim (synapse_named from to net) [
    | none ↦ none
    | some s ↦ some (s.gate, s.evidence)
  ]

  abbrev pub name_at : List (Neuron fl) → ℕ → List ℕ
  name_at ns i = elim (get_elem? ns i) [ none ↦ [] | some n ↦ n.name ]

  unfoldable pub all_synapse_weights : GenericNetwork fl → List (List ℕ × List ℕ × fl.Carrier)
  all_synapse_weights net =
      map (λ (s : Synapse fl). (name_at net.neurons s.from, name_at net.neurons s.to, s.weight))
        net.synapses

  unfoldable pub apply_synapse_weight :
      List ℕ → List ℕ → fl.Carrier → GenericNetwork fl → Bool × GenericNetwork fl
  apply_synapse_weight from to weight net = elim (index_named from to net) [
    | none ↦ (false, net)
    | some i ↦
        (true, record net { synapses = update net.synapses i (λ s. record s { weight = weight }) })
  ]
