-- ===== src/Network/Tick.antt =====
-- kernel/src/network.rs: GenericNetwork::tick(), the loops in their order.
use spikeling_os.Base.{
  ℕ, zero, suc, ◌+◌, ◌-◌, ◌%◌, ltb, leb, ◌==◌, List, [], ◌∷◌, map, Option, none, some, Bool, true,
  false, ◌&&◌, ◌||◌, if◌then◌else◌, get_or, get_elem?,
}
use spikeling_os.Scheduler.{update}
use spikeling_os.Network.{
  NetFloats, Neuron, Synapse, GenericNetwork, correlation_window_ticks, fast_tau_ticks,
  beep_duration_ticks, add_u64, sub_u64, inc_u32,
}
use spikeling_os.Network.Learning.{apply_stdp, update_evidence, golden_period, evaluate_gates}

-- `fired.contains(&i)`
unfoldable pub contains : ℕ → List ℕ → Bool
contains i [] = false
contains i (x ∷ xs) = (i == x) || contains i xs

-- What a tick does to the speaker.
pub data Sound : Type 0 where
  beep stop quiet : Sound

module _ (fl : NetFloats) where
  abbrev pub charged : fl.Carrier → Neuron fl → fl.Carrier
  charged stimulus n = fl.add (fl.max_of (fl.sub n.v n.leak) fl.nought) stimulus

  -- One pass of the loop over the neurons: whether it fired. In its refractory ticks a neuron drops what
  -- it is given.
  unfoldable pub step_neuron : ℕ → fl.Carrier → Neuron fl → Bool × Neuron fl
  step_neuron tick_n stimulus n =
      let v = charged stimulus n in
      if ltb 0 n.refractory_remaining
      then (false, record n { refractory_remaining = n.refractory_remaining - 1 })
      else if fl.ge v n.threshold
      then (
        true,
        record n {
          v = fl.nought;
          fire_count = inc_u32 n.fire_count;
          last_fire_tick = some tick_n;
          refractory_remaining = n.refractory_ticks;
        },
      )
      else (false, record n { v = v })

  -- From number `i` on: those that fired, and the neurons.
  unfoldable pub step_neurons :
      ℕ → List fl.Carrier → ℕ → List (Neuron fl) → List ℕ × List (Neuron fl)
  step_neurons tick_n stimuli i [] = ([], [])
  step_neurons tick_n stimuli i (n ∷ ns) =
      let (fired, n') = step_neuron tick_n (get_or stimuli i fl.nought) n in
      let (others, ns') = step_neurons tick_n stimuli (i + 1) ns in
      (if fired then i ∷ others else others, n' ∷ ns')

  -- The three steps of the evidence pass, in order.
  unfoldable pub score_hit : ℕ → List ℕ → Synapse fl → Synapse fl
  score_hit tick_n fired syn = elim syn.pending_pre_fire_tick [
    | none ↦ syn
    | some pre ↦
        if contains syn.to fired && leb (sub_u64 tick_n pre) correlation_window_ticks
        then record syn {
          evidence = update_evidence fl syn.evidence true;
          pending_pre_fire_tick = none;
        }
        else syn
  ]

  unfoldable pub score_miss : ℕ → Synapse fl → Synapse fl
  score_miss tick_n syn = elim syn.pending_pre_fire_tick [
    | none ↦ syn
    | some pre ↦
        if ltb correlation_window_ticks (sub_u64 tick_n pre)
        then record syn {
          evidence = update_evidence fl syn.evidence false;
          pending_pre_fire_tick = none;
        }
        else syn
  ]

  unfoldable pub open_window : ℕ → List ℕ → Synapse fl → Synapse fl
  open_window tick_n fired syn =
      if contains syn.from fired then record syn { pending_pre_fire_tick = some tick_n } else syn

  abbrev pub sense : ℕ → List ℕ → Synapse fl → Synapse fl
  sense tick_n fired syn = open_window tick_n fired (score_miss tick_n (score_hit tick_n fired syn))

  -- `for syn in synapses.filter(|s| s.from == *src && s.gate)`
  unfoldable pub propagate_from : ℕ → List (Synapse fl) → List fl.Carrier → List fl.Carrier
  propagate_from src [] pending = pending
  propagate_from src (s ∷ ss) pending = propagate_from src ss (
      if s.from == src && s.gate
      then update pending s.to (λ p. fl.add p (fl.mul s.weight fl.spike_gain))
      else pending)

  unfoldable pub propagate : List ℕ → List (Synapse fl) → List fl.Carrier → List fl.Carrier
  propagate [] syns pending = pending
  propagate (src ∷ fired) syns pending = propagate fired syns (propagate_from src syns pending)

  abbrev pub last_fire : List (Neuron fl) → ℕ → Option ℕ
  last_fire ns i = elim (get_elem? ns i) [ none ↦ none | some n ↦ n.last_fire_tick ]

  unfoldable pub learn : List ℕ → List (Neuron fl) → Synapse fl → Synapse fl
  learn fired ns syn =
      if syn.gate && (contains syn.from fired || contains syn.to fired)
      then record syn {
        weight = apply_stdp fl syn.weight (last_fire ns syn.from) (last_fire ns syn.to);
      }
      else syn

  unfoldable pub sound_after : List ℕ → ℕ → Sound × ℕ
  sound_after (i ∷ fired) remaining = (beep, beep_duration_ticks)
  sound_after [] zero = (quiet, zero)
  sound_after [] (suc zero) = (stop, zero)
  sound_after [] (suc (suc n)) = (quiet, suc n)

  -- The synapses after the evidence pass, the learning and, every golden_period() ticks, the gates.
  unfoldable pub next_synapses :
      ℕ → List ℕ → List (Neuron fl) → List (Synapse fl) → List (Synapse fl)
  next_synapses tick_n fired ns syns =
      let learnt = map (learn fired ns) (map (sense tick_n fired) syns) in
      if tick_n % golden_period fl fast_tau_ticks == 0 then evaluate_gates fl learnt else learnt

  unfoldable pub tick : GenericNetwork fl → Sound × GenericNetwork fl
  tick net =
      let tick_n = net.tick_count in
      let (fired, ns) = step_neurons tick_n net.pending_stimulus 0 net.neurons in
      let cleared = map (λ s. fl.nought) net.pending_stimulus in
      let (sound, remaining) = sound_after fired net.beep_ticks_remaining in
      (
        sound,
        record {
          neurons = ns;
          synapses = next_synapses tick_n fired ns net.synapses;
          pending_stimulus = propagate fired (map (sense tick_n fired) net.synapses) cleared;
          beep_ticks_remaining = remaining;
          tick_count = add_u64 tick_n 1;
        },
      )
