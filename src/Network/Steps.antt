-- ===== src/Network/Steps.antt =====
-- kernel/src/network.rs: the operations on the network one by one, and any sequence of them, keep it well
-- formed.
use spikeling_os.Base.{
  ℕ, ◌+◌, ◌≡◌, refl, ap₂, sym, subst, ◌∙◌, List, [], ◌∷◌, ◌++◌, map, Bool, true, false, ◌&&◌, ◌||◌,
  not, if◌then◌else◌, arith, length, length-map, ltb, leb, ◌==◌, ◌%◌,
}
use spikeling_os.Base.Branch.{if-either, option-either}
use spikeling_os.Base.Result.{ok, bind-ok, ok_or, ok_or-ok}
use spikeling_os.Scheduler.{update}
use spikeling_os.Network.{
  NetFloats, Neuron, Synapse, GenericNetwork, sub_u64, correlation_window_ticks, fast_tau_ticks,
}
use spikeling_os.Network.Learning.{evaluate_gate, golden_period}
use spikeling_os.Network.Ends.{
  length-update, map-update, map-map, map-snoc, EndsBelow, EndsBelow-snoc,
}
use spikeling_os.Network.Tick.{
  contains, step_neuron, step_neurons, score_hit, score_miss, open_window, sense, propagate_from,
  propagate, learn, next_synapses, tick,
}
use spikeling_os.Network.Names.{
  find, new_synapse, add_synapse, stimulate, fire_at, train, index_named, apply_synapse_weight,
  no_such_neuron,
}
use spikeling_os.Network.Wired.{names, ends_of, ends, IsWired, rewire, find-lt}

module _ (fl : NetFloats) where
  pub add_synapse-IsWired :
      (from to : List ℕ) (weight : fl.Carrier) (net net' : GenericNetwork fl)
      → IsWired fl net
      → add_synapse fl from to weight net ≡ ok net'
      → IsWired fl net'
  unfolding add_synapse
  add_synapse-IsWired from to weight net net' w e =
      let (a, e1, r1) = bind-ok (ok_or (find fl from net) (no_such_neuron from)) _ e in
      let (b, e2, r2) = bind-ok (ok_or (find fl to net) (no_such_neuron to)) _ r1 in
      let s = new_synapse fl a b weight in
      let after : GenericNetwork fl = record net { synapses = net.synapses ++ (s ∷ []) } in
      let same : after ≡ net' = ground arith in
      let below_a = find-lt fl from net a (ok_or-ok (find fl from net) (no_such_neuron from) e1) in
      let below_b = find-lt fl to net b (ok_or-ok (find fl to net) (no_such_neuron to) e2) in
      subst (IsWired fl) same (record {
        stimuli = w.stimuli;
        in_range =
            subst (EndsBelow (length net.neurons)) (sym (map-snoc (ends_of fl) net.synapses s)) (
              EndsBelow-snoc (length net.neurons) a b (ends fl net.synapses) below_a below_b
                w.in_range);
        unique = w.unique;
      })

  pub stimulate-IsWired :
      (name : List ℕ) (amount : fl.Carrier) (net net' : GenericNetwork fl)
      → IsWired fl net
      → stimulate fl name amount net ≡ ok net'
      → IsWired fl net'
  unfolding stimulate
  stimulate-IsWired name amount net net' w e =
      let (i, e1, r1) = bind-ok (ok_or (find fl name net) (no_such_neuron name)) _ e in
      let f : fl.Carrier → fl.Carrier = λ p. fl.add p amount in
      let after : GenericNetwork fl = record net {
        pending_stimulus = update net.pending_stimulus i f;
      } in
      let same : after ≡ net' = ground arith in
      subst (IsWired fl) same
        (rewire fl net after refl refl (length-update net.pending_stimulus i f) w)

  fire_at-names :
      (i j t u : ℕ) (ns : List (Neuron fl))
      → names fl (update (update ns i (fire_at fl t)) j (fire_at fl u)) ≡ names fl ns
  fire_at-names i j t u ns =
      let g : Neuron fl → List ℕ = λ n. n.name in
      map-update g (update ns i (fire_at fl t)) j (fire_at fl u) (λ n. refl)
      ∙ map-update g ns i (fire_at fl t) (λ n. refl)

  weights-ends :
      (i : ℕ) (f : fl.Carrier → fl.Carrier) (syns : List (Synapse fl))
      → ends fl (update syns i (λ s. record s { weight = f s.weight })) ≡ ends fl syns
  weights-ends i f syns =
      map-update (ends_of fl) syns i (λ s. record s { weight = f s.weight }) (λ s. refl)

  pub train-IsWired :
      (from to syn gap : ℕ) (pre_first : Bool) (net : GenericNetwork fl)
      → IsWired fl net
      → IsWired fl (train fl from to syn gap pre_first net)
  unfolding train
  train-IsWired from to syn gap true net w =
      rewire fl net _ (fire_at-names from to _ _ net.neurons) (weights-ends syn _ net.synapses) refl
        w
  train-IsWired from to syn gap false net w =
      rewire fl net _ (fire_at-names to from _ _ net.neurons) (weights-ends syn _ net.synapses) refl
        w

  pub apply_synapse_weight-IsWired :
      (from to : List ℕ) (weight : fl.Carrier) (net : GenericNetwork fl)
      → IsWired fl net
      → IsWired fl (apply_synapse_weight fl from to weight net).1
  unfolding apply_synapse_weight
  apply_synapse_weight-IsWired from to weight net w =
      option-either (λ (r : Bool × GenericNetwork fl). IsWired fl r.1) (index_named fl from to net)
        (λ n. w) (λ i e. rewire fl net _ refl (weights-ends i (λ x. weight) net.synapses) refl w)

  -- The loops of a tick, one by one.
  step_neuron-name :
      (t : ℕ) (x : fl.Carrier) (n : Neuron fl) → (step_neuron fl t x n).1.name ≡ n.name
  unfolding step_neuron
  step_neuron-name t x n =
      let P : Bool × Neuron fl → Type 0 = λ r. r.1.name ≡ n.name in
      if-either P (ltb 0 n.refractory_remaining) (λ e. refl)
        (λ e.
          if-either P (fl.ge (fl.add (fl.max_of (fl.sub n.v n.leak) fl.nought) x) n.threshold)
            (λ q. refl) (λ q. refl))

  step_neurons-names :
      (t : ℕ) (xs : List fl.Carrier) (i : ℕ) (ns : List (Neuron fl))
      → names fl (step_neurons fl t xs i ns).1 ≡ names fl ns
  unfolding step_neurons
  step_neurons-names t xs i [] = refl
  step_neurons-names t xs i (n ∷ ns) =
      ap₂ (λ y ys. y ∷ ys) (step_neuron-name t _ n) (step_neurons-names t xs (i + 1) ns)

  -- A step on a synapse that leaves its ends alone.
  abbrev KeepsEnds : (Synapse fl → Synapse fl) → Type 0
  KeepsEnds f = (s : Synapse fl) → ends_of fl (f s) ≡ ends_of fl s

  sense-KeepsEnds : (t : ℕ) (fired : List ℕ) → KeepsEnds (sense fl t fired)
  unfolding score_hit score_miss open_window
  sense-KeepsEnds t fired s =
      opened (score_miss fl t (score_hit fl t fired s)) ∙ (missed (score_hit fl t fired s) ∙ hit s)
    where
      opened : KeepsEnds (open_window fl t fired)
      opened s =
          if-either (λ (r : Synapse fl). ends_of fl r ≡ ends_of fl s) (contains s.from fired)
            (λ e. refl) (λ e. refl)

      missed : KeepsEnds (score_miss fl t)
      missed s =
          option-either (λ (r : Synapse fl). ends_of fl r ≡ ends_of fl s) s.pending_pre_fire_tick
            (λ n. refl)
            (λ pre e.
              if-either (λ (r : Synapse fl). ends_of fl r ≡ ends_of fl s)
                (ltb correlation_window_ticks (sub_u64 t pre)) (λ q. refl) (λ q. refl))

      hit : KeepsEnds (score_hit fl t fired)
      hit s =
          option-either (λ (r : Synapse fl). ends_of fl r ≡ ends_of fl s) s.pending_pre_fire_tick
            (λ n. refl)
            (λ pre e.
              if-either (λ (r : Synapse fl). ends_of fl r ≡ ends_of fl s)
                (contains s.to fired && leb (sub_u64 t pre) correlation_window_ticks) (λ q. refl)
                (λ q. refl))

  learn-KeepsEnds : (fired : List ℕ) (ns : List (Neuron fl)) → KeepsEnds (learn fl fired ns)
  unfolding learn
  learn-KeepsEnds fired ns s =
      if-either (λ (r : Synapse fl). ends_of fl r ≡ ends_of fl s)
        (s.gate && (contains s.from fired || contains s.to fired)) (λ e. refl) (λ e. refl)

  evaluate_gate-KeepsEnds : KeepsEnds (evaluate_gate fl)
  unfolding evaluate_gate
  evaluate_gate-KeepsEnds s =
      let P : Synapse fl → Type 0 = λ r. ends_of fl r ≡ ends_of fl s in
      if-either P (s.gate && fl.lt s.evidence fl.gate_off_threshold) (λ e. refl)
        (λ e.
          if-either P (not s.gate && fl.lt fl.gate_on_threshold s.evidence) (λ q. refl) (λ q. refl))

  mapped-ends :
      (f : Synapse fl → Synapse fl) (syns : List (Synapse fl))
      → KeepsEnds f
      → ends fl (map f syns) ≡ ends fl syns
  mapped-ends f syns h = map-map (ends_of fl) f syns h

  next_synapses-ends :
      (t : ℕ) (fired : List ℕ) (ns : List (Neuron fl)) (syns : List (Synapse fl))
      → ends fl (next_synapses fl t fired ns syns) ≡ ends fl syns
  unfolding next_synapses
  next_synapses-ends t fired ns syns =
      let learnt =
        mapped-ends (learn fl fired ns) (map (sense fl t fired) syns) (learn-KeepsEnds fired ns)
        ∙ mapped-ends (sense fl t fired) syns (sense-KeepsEnds t fired) in
      if-either (λ (r : List (Synapse fl)). ends fl r ≡ ends fl syns)
        (t % golden_period fl fast_tau_ticks == 0)
        (λ e.
          mapped-ends (evaluate_gate fl) (map (learn fl fired ns) (map (sense fl t fired) syns))
            evaluate_gate-KeepsEnds
          ∙ learnt)
        (λ e. learnt)

  propagate_from-length :
      (src : ℕ) (syns : List (Synapse fl)) (ps : List fl.Carrier)
      → length (propagate_from fl src syns ps) ≡ length ps
  unfolding propagate_from
  propagate_from-length src [] ps = refl
  propagate_from-length src (s ∷ ss) ps =
      let f : fl.Carrier → fl.Carrier = λ p. fl.add p (fl.mul s.weight fl.spike_gain) in
      propagate_from-length src ss (if (s.from == src) && s.gate then update ps s.to f else ps)
      ∙ if-either (λ (r : List fl.Carrier). length r ≡ length ps) ((s.from == src) && s.gate)
          (λ e. length-update ps s.to f) (λ e. refl)

  propagate-length :
      (fired : List ℕ) (syns : List (Synapse fl)) (ps : List fl.Carrier)
      → length (propagate fl fired syns ps) ≡ length ps
  unfolding propagate
  propagate-length [] syns ps = refl
  propagate-length (src ∷ fired) syns ps =
      propagate-length fired syns (propagate_from fl src syns ps)
      ∙ propagate_from-length src syns ps

  pub tick-IsWired : (net : GenericNetwork fl) → IsWired fl net → IsWired fl (tick fl net).1
  unfolding tick
  tick-IsWired net w =
      let stepped = step_neurons fl net.tick_count net.pending_stimulus 0 net.neurons in
      let cleared : fl.Carrier → fl.Carrier = λ s. fl.nought in
      rewire fl net _ (step_neurons-names net.tick_count net.pending_stimulus 0 net.neurons)
        (next_synapses-ends net.tick_count stepped.0 stepped.1 net.synapses)
        (propagate-length stepped.0 (map (sense fl net.tick_count stepped.0) net.synapses)
            (map cleared net.pending_stimulus)
          ∙ length-map net.pending_stimulus cleared)
        w
