-- ===== src/Network/Rest.antt =====
-- kernel/src/network.rs: what rests: a neuron in its refractory ticks, and a synapse whose gate is off.
use spikeling_os.Base.{
  ℕ, zero, suc, ◌+◌, ◌-◌, ◌<◌, ◌≤◌, ◌≡◌, refl, ap, ◌∙◌, List, [], ◌∷◌, map, some, Bool, true, false,
  ◌&&◌, ◌||◌, not, ltb, leb, ◌==◌, ◌%◌, ◌^◌, arith, length, get_elem?,
}
use spikeling_os.Base.Branch.{if-either, option-either}
use spikeling_os.Scheduler.{update}
use spikeling_os.Network.{
  NetFloats, Neuron, Synapse, GenericNetwork, correlation_window_ticks, sub_u64, fast_tau_ticks,
}
use spikeling_os.Network.Learning.{evaluate_gate, golden_period}
use spikeling_os.Network.Tick.{
  contains, step_neuron, step_neurons, score_hit, score_miss, open_window, sense, propagate_from,
  propagate, learn, next_synapses, tick,
}

get_elem?-map {ℓ κ} :
    {A : Type ℓ} {B : Type κ} (f : A → B) (xs : List A) (i : ℕ) {a : A}
    → get_elem? xs i ≡ some a
    → get_elem? (map f xs) i ≡ some (f a)
get_elem?-map f [] i e = cc
get_elem?-map f (x ∷ xs) zero e = cc
get_elem?-map f (x ∷ xs) (suc i) e = get_elem?-map f xs i e

module _ (fl : NetFloats) where
  -- A neuron through ticks from number `t` on, with what it is given at each: whether it ever fires, and
  -- the neuron.
  unfoldable pub rest_of : ℕ → List fl.Carrier → Neuron fl → Bool × Neuron fl
  rest_of t [] n = (false, n)
  rest_of t (x ∷ xs) n =
      let (fired, n') = step_neuron fl t x n in
      let (later, n'') = rest_of (t + 1) xs n' in (fired || later, n'')

  resting :
      (t : ℕ) (x : fl.Carrier) (n : Neuron fl)
      → 0 < n.refractory_remaining
      → step_neuron fl t x n
        ≡ (false, record n { refractory_remaining = n.refractory_remaining - 1 })
  unfolding step_neuron
  resting t x n h = ground arith

  rests :
      (t : ℕ) (xs : List fl.Carrier) (n : Neuron fl)
      → length xs ≤ n.refractory_remaining
      → rest_of t xs n
        ≡ (false, record n { refractory_remaining = n.refractory_remaining - length xs })
  unfolding rest_of
  rests t [] n h = ground arith
  rests t (x ∷ xs) n h =
      let n' : Neuron fl = record n { refractory_remaining = n.refractory_remaining - 1 } in
      let here = resting t x n (omega arith) in
      let later = rests (t + 1) xs n' (omega arith) in ground arith

  -- A neuron that fires does so at or above its threshold, adds one to its count of firings, which wraps at
  -- 2 ^ 32, and notes the tick. Then
  -- for as many ticks as its refractory time it fires no more and stays at 0, whatever it is given, and its count stays.
  pub step_neuron-rests :
      (t : ℕ) (x : fl.Carrier) (xs : List fl.Carrier) (n n' : Neuron fl)
      → step_neuron fl t x n ≡ (true, n')
      → length xs ≤ n.refractory_ticks
      → (fl.ge (fl.add (fl.max_of (fl.sub n.v n.leak) fl.nought) x) n.threshold ≡ true)
        × (n'.last_fire_tick ≡ some t)
        × (n'.fire_count ≡ (n.fire_count + 1) % 2 ^ 32)
        × ((rest_of (t + 1) xs n').0 ≡ false)
        × ((rest_of (t + 1) xs n').1.v ≡ fl.nought)
        × ((rest_of (t + 1) xs n').1.fire_count ≡ n'.fire_count)
  unfolding step_neuron
  step_neuron-rests t x xs n n' e h =
      let full : n'.refractory_remaining ≡ n.refractory_ticks = ground arith in
      let charge : n'.v ≡ fl.nought = ground arith in
      let rest = rests (t + 1) xs n' (omega (arith, full)) in
      (
        ground arith,
        ground arith,
        ground arith,
        ap (λ r. r.0) rest,
        ap (λ r. r.1.v) rest ∙ charge,
        ap (λ r. r.1.fire_count) rest,
      )

  -- The steps of a tick on one synapse leave its gate and its weight alone until it learns.
  abbrev Untouched : Synapse fl → Synapse fl → Type 0
  Untouched s r = (r.gate ≡ s.gate) × (r.weight ≡ s.weight)

  sense-Untouched : (t : ℕ) (fired : List ℕ) (s : Synapse fl) → Untouched s (sense fl t fired s)
  unfolding score_hit score_miss open_window
  sense-Untouched t fired s =
      let one = score_hit fl t fired s in
      let two = score_miss fl t one in
      let (g1, w1) = hit s in
      let (g2, w2) = missed one in let (g3, w3) = opened two in (g3 ∙ (g2 ∙ g1), w3 ∙ (w2 ∙ w1))
    where
      opened : (s : Synapse fl) → Untouched s (open_window fl t fired s)
      opened s =
          if-either (Untouched s) (contains s.from fired) (λ e. (refl, refl)) (λ e. (refl, refl))

      missed : (s : Synapse fl) → Untouched s (score_miss fl t s)
      missed s =
          option-either (Untouched s) s.pending_pre_fire_tick (λ n. (refl, refl))
            (λ pre e.
              if-either (Untouched s) (ltb correlation_window_ticks (sub_u64 t pre))
                (λ q. (refl, refl)) (λ q. (refl, refl)))

      hit : (s : Synapse fl) → Untouched s (score_hit fl t fired s)
      hit s =
          option-either (Untouched s) s.pending_pre_fire_tick (λ n. (refl, refl))
            (λ pre e.
              if-either (Untouched s)
                (contains s.to fired && leb (sub_u64 t pre) correlation_window_ticks)
                (λ q. (refl, refl)) (λ q. (refl, refl)))

  learn-dormant :
      (fired : List ℕ) (ns : List (Neuron fl)) (s : Synapse fl)
      → s.gate ≡ false
      → learn fl fired ns s ≡ s
  unfolding learn
  learn-dormant fired ns s off = ground arith

  evaluate_gate-weight : (s : Synapse fl) → (evaluate_gate fl s).weight ≡ s.weight
  unfolding evaluate_gate
  evaluate_gate-weight s =
      let P : Synapse fl → Type 0 = λ r. r.weight ≡ s.weight in
      if-either P (s.gate && fl.lt s.evidence fl.gate_off_threshold) (λ e. refl)
        (λ e.
          if-either P (not s.gate && fl.lt fl.gate_on_threshold s.evidence) (λ q. refl) (λ q. refl))

  next_synapses-dormant :
      (t : ℕ) (fired : List ℕ) (ns : List (Neuron fl)) (syns : List (Synapse fl)) (i : ℕ)
      (s : Synapse fl)
      → get_elem? syns i ≡ some s
      → s.gate ≡ false
      → (s' : Synapse fl) × (get_elem? (next_synapses fl t fired ns syns) i ≡ some s')
        × (s'.weight ≡ s.weight)
  unfolding next_synapses
  next_synapses-dormant t fired ns syns i s at off =
      let felt = sense fl t fired s in
      let (gate, weight) = sense-Untouched t fired s in
      let learnt = learn fl fired ns felt in
      let same : learnt.weight ≡ s.weight =
        ap (λ r. r.weight) (learn-dormant fired ns felt (gate ∙ off)) ∙ weight in
      let there =
        get_elem?-map (learn fl fired ns) (map (sense fl t fired) syns) i
          (get_elem?-map (sense fl t fired) syns i at) in
      if-either
        (λ (r : List (Synapse fl)).
          (s' : Synapse fl) × (get_elem? r i ≡ some s') × (s'.weight ≡ s.weight))
        (t % golden_period fl fast_tau_ticks == 0)
        (λ e. (
          evaluate_gate fl learnt,
          get_elem?-map (evaluate_gate fl) (map (learn fl fired ns) (map (sense fl t fired) syns)) i
              there,
          evaluate_gate-weight learnt ∙ same,
        ))
        (λ e. (learnt, there, same))

  abbrev weigh : fl.Carrier → Synapse fl → Synapse fl
  weigh w s = record s { weight = w }

  -- What a dormant synapse weighs makes no difference to what the others are given.
  propagate_from-weigh :
      (src t : ℕ) (fired : List ℕ) (w : fl.Carrier) (syns : List (Synapse fl)) (i : ℕ)
      (s : Synapse fl) (ps : List fl.Carrier)
      → get_elem? syns i ≡ some s
      → s.gate ≡ false
      → propagate_from fl src (map (sense fl t fired) (update syns i (weigh w))) ps
        ≡ propagate_from fl src (map (sense fl t fired) syns) ps
  unfolding propagate_from
  propagate_from-weigh src t fired w [] i s ps at off = cc
  propagate_from-weigh src t fired w (r ∷ rs) zero s ps at off =
      let same : r ≡ s = cc in
      let shut : (sense fl t fired r).gate ≡ false =
        (sense-Untouched t fired r).0 ∙ (ap (λ q. q.gate) same ∙ off) in
      let shut' : (sense fl t fired (weigh w r)).gate ≡ false =
        (sense-Untouched t fired (weigh w r)).0 ∙ (ap (λ q. q.gate) same ∙ off) in
      rw (shut, shut') (ground arith)
  propagate_from-weigh src t fired w (r ∷ rs) (suc i) s ps at off =
      propagate_from-weigh src t fired w rs i s _ at off

  propagate-weigh :
      (fired0 : List ℕ) (t : ℕ) (fired : List ℕ) (w : fl.Carrier) (syns : List (Synapse fl)) (i : ℕ)
      (s : Synapse fl) (ps : List fl.Carrier)
      → get_elem? syns i ≡ some s
      → s.gate ≡ false
      → propagate fl fired0 (map (sense fl t fired) (update syns i (weigh w))) ps
        ≡ propagate fl fired0 (map (sense fl t fired) syns) ps
  unfolding propagate
  propagate-weigh [] t fired w syns i s ps at off = refl
  propagate-weigh (src ∷ more) t fired w syns i s ps at off =
      ap (propagate fl more (map (sense fl t fired) (update syns i (weigh w))))
        (propagate_from-weigh src t fired w syns i s ps at off)
      ∙ propagate-weigh more t fired w syns i s
          (propagate_from fl src (map (sense fl t fired) syns) ps) at off

  -- A tick leaves the weight of a synapse whose gate is off as it was, even where it turns the gate on,
  -- and whatever that weight were, the neurons and what they are given next would be the same.
  pub tick-dormant :
      (net : GenericNetwork fl) (i : ℕ) (s : Synapse fl) (w : fl.Carrier)
      → get_elem? net.synapses i ≡ some s
      → s.gate ≡ false
      → ((s' : Synapse fl) × (get_elem? (tick fl net).1.synapses i ≡ some s')
          × (s'.weight ≡ s.weight))
        × ((tick fl (record net { synapses = update net.synapses i (weigh w) })).1.pending_stimulus
            ≡ (tick fl net).1.pending_stimulus)
        × ((tick fl (record net { synapses = update net.synapses i (weigh w) })).1.neurons
            ≡ (tick fl net).1.neurons)
  unfolding tick
  tick-dormant net i s w at off =
      let stepped = step_neurons fl net.tick_count net.pending_stimulus 0 net.neurons in
      (
        next_synapses-dormant net.tick_count stepped.0 stepped.1 net.synapses i s at off,
        propagate-weigh stepped.0 net.tick_count stepped.0 w net.synapses i s _ at off,
        refl,
      )
