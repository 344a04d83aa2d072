-- ===== src/Network/Reach.antt =====
-- kernel/src/network.rs: what the kernel does with the network, in any order.
use spikeling_os.Base.{ℕ, ◌≡◌, refl, subst, List, [], is_some, Bool, arith}
use spikeling_os.Base.Branch.{if-either, result-either}
use spikeling_os.Base.Result.{Result, ok, err, bind-ok, ok_or}
use spikeling_os.Network.{NetFloats, GenericNetwork}
use spikeling_os.Network.Tick.{tick}
use spikeling_os.Network.Names.{
  NetError, find, find_synapse, add_neuron, add_synapse, stimulate, train, train_synapse, attempt,
  seed_fixed_network, apply_synapse_weight, no_such_neuron, no_synapse,
}
use spikeling_os.Network.Wired.{IsWired, add_neuron-IsWired}
use spikeling_os.Network.Steps.{
  add_synapse-IsWired, stimulate-IsWired, train-IsWired, apply_synapse_weight-IsWired, tick-IsWired,
}

module _ (fl : NetFloats) where
  -- `NET` at the start.
  abbrev pub empty_network : GenericNetwork fl
  empty_network = record {
    neurons = [];
    synapses = [];
    pending_stimulus = [];
    beep_ticks_remaining = 0;
    tick_count = 0;
  }

  pub data NetCall : Type 0 where
    tick_call : NetCall
    neuron_call : List ℕ → fl.Carrier → fl.Carrier → ℕ → NetCall
    synapse_call : List ℕ → List ℕ → fl.Carrier → NetCall
    stimulate_call : List ℕ → fl.Carrier → NetCall
    train_call : List ℕ → List ℕ → ℕ → Bool → NetCall
    weight_call : List ℕ → List ℕ → fl.Carrier → NetCall
    seed_call :
        List ℕ
        → List ℕ
        → List ℕ
        → fl.Carrier × fl.Carrier
        → fl.Carrier × fl.Carrier
        → ℕ
        → fl.Carrier × fl.Carrier
        → NetCall

  -- The network after a call; an error leaves it as it was.
  unfoldable pub run_call : NetCall → GenericNetwork fl → GenericNetwork fl
  run_call tick_call net = (tick fl net).1
  run_call (neuron_call name threshold leak r) net =
      attempt fl (add_neuron fl name threshold leak r) net
  run_call (synapse_call from to weight) net = attempt fl (add_synapse fl from to weight) net
  run_call (stimulate_call name amount) net = attempt fl (stimulate fl name amount) net
  run_call (train_call from to gap pre_first) net =
      elim (train_synapse fl from to gap pre_first net) [ ok (ws, net') ↦ net' | err e ↦ net ]
  run_call (weight_call from to weight) net = (apply_synapse_weight fl from to weight net).1
  run_call (seed_call left right motor key motor_key r weights) net =
      seed_fixed_network fl left right motor key motor_key r weights net

  pub data NetReaches (net : GenericNetwork fl) : GenericNetwork fl → Type 0 where
    start : NetReaches net net
    next :
        {net1 : GenericNetwork fl}
        → NetReaches net net1
        → (c : NetCall) → NetReaches net (run_call c net1)

  attempt-IsWired :
      (f : GenericNetwork fl → Result NetError (GenericNetwork fl)) (net : GenericNetwork fl)
      → IsWired fl net
      → ((net' : GenericNetwork fl) → f net ≡ ok net' → IsWired fl net')
      → IsWired fl (attempt fl f net)
  attempt-IsWired f net w h = result-either (IsWired fl) (f net) h (λ e q. w)

  neuron-IsWired :
      (name : List ℕ) (threshold leak : fl.Carrier) (r : ℕ) (net : GenericNetwork fl)
      → IsWired fl net
      → IsWired fl (attempt fl (add_neuron fl name threshold leak r) net)
  neuron-IsWired name threshold leak r net w =
      attempt-IsWired (add_neuron fl name threshold leak r) net w
        (λ net' e. add_neuron-IsWired fl name threshold leak r net net' w e)

  synapse-IsWired :
      (from to : List ℕ) (weight : fl.Carrier) (net : GenericNetwork fl)
      → IsWired fl net
      → IsWired fl (attempt fl (add_synapse fl from to weight) net)
  synapse-IsWired from to weight net w =
      attempt-IsWired (add_synapse fl from to weight) net w
        (λ net' e. add_synapse-IsWired fl from to weight net net' w e)

  train_synapse-IsWired :
      (from to : List ℕ) (gap : ℕ) (pre_first : Bool) (net net' : GenericNetwork fl)
      (ws : fl.Carrier × fl.Carrier)
      → IsWired fl net
      → train_synapse fl from to gap pre_first net ≡ ok (ws, net')
      → IsWired fl net'
  unfolding train_synapse
  train_synapse-IsWired from to gap pre_first net net' ws w e =
      let (a, e1, r1) = bind-ok (ok_or (find fl from net) (no_such_neuron from)) _ e in
      let (b, e2, r2) = bind-ok (ok_or (find fl to net) (no_such_neuron to)) _ r1 in
      let (s, e3, r3) = bind-ok (ok_or (find_synapse fl a b net) (no_synapse from to)) _ r2 in
      let same : train fl a b s gap pre_first net ≡ net' = ground arith in
      subst (IsWired fl) same (train-IsWired fl a b s gap pre_first net w)

  seed-IsWired :
      (left right motor : List ℕ) (key motor_key : fl.Carrier × fl.Carrier) (r : ℕ)
      (weights : fl.Carrier × fl.Carrier) (net : GenericNetwork fl)
      → IsWired fl net
      → IsWired fl (seed_fixed_network fl left right motor key motor_key r weights net)
  unfolding seed_fixed_network
  seed-IsWired left right motor (kt, kl) (mt, ml) r (lw, rw') net w =
      if-either (IsWired fl) (is_some (find fl left net)) (λ e. w)
        (λ e. synapse-IsWired right motor rw' _ (
          synapse-IsWired left motor lw _ (
            neuron-IsWired motor mt ml r _
              (neuron-IsWired right kt kl r _ (neuron-IsWired left kt kl r net w)))))

  pub run_call-IsWired :
      (c : NetCall) (net : GenericNetwork fl) → IsWired fl net → IsWired fl (run_call c net)
  unfolding run_call
  run_call-IsWired tick_call net w = tick-IsWired fl net w
  run_call-IsWired (neuron_call name threshold leak r) net w =
      neuron-IsWired name threshold leak r net w
  run_call-IsWired (synapse_call from to weight) net w = synapse-IsWired from to weight net w
  run_call-IsWired (stimulate_call name amount) net w =
      attempt-IsWired (stimulate fl name amount) net w
        (λ net' e. stimulate-IsWired fl name amount net net' w e)
  run_call-IsWired (train_call from to gap pre_first) net w =
      result-either (IsWired fl) (train_synapse fl from to gap pre_first net)
        (λ (ws, net') e. train_synapse-IsWired from to gap pre_first net net' ws w e) (λ e q. w)
  run_call-IsWired (weight_call from to weight) net w =
      apply_synapse_weight-IsWired fl from to weight net w
  run_call-IsWired (seed_call left right motor key motor_key r weights) net w =
      seed-IsWired left right motor key motor_key r weights net w

  -- Whatever ticks, additions, stimuli, trainings and loaded weights follow one another from the empty
  -- network, there is one pending stimulus for each neuron, the ends of every synapse are neurons, and
  -- no two neurons share a name: no access of network.rs by index is out of range.
  pub NetReaches-IsWired : (net : GenericNetwork fl) → NetReaches empty_network net → IsWired fl net
  NetReaches-IsWired net start = record { stimuli = refl; in_range = tt; unique = tt }
  NetReaches-IsWired net (next {net1} r c) = run_call-IsWired c net1 (NetReaches-IsWired net1 r)
