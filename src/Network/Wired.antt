-- ===== src/Network/Wired.antt =====
-- kernel/src/network.rs: whatever is done to the network, it stays well formed: the indices that tick()
-- and train_synapse() use without a check are in range, and a name finds one neuron.
use spikeling_os.Base.{
  ℕ, suc, ◌<◌, ◌≡◌, ap, sym, subst, ◌∙◌, List, [], ◌∷◌, ◌++◌, map, none, some, false, arith, length,
  length-map, get_elem?-lt, position, position-some, bytes_eq, bytes_eq_refl, Option-cases, inl,
  inr,
}
use spikeling_os.Base.Result.{ok}
use spikeling_os.Network.{NetFloats, Neuron, Synapse, GenericNetwork}
use spikeling_os.Network.Ends.{
  map-snoc, length-snoc, EndsBelow, EndsBelow-suc, Absent, Unique, Unique-snoc,
}
use spikeling_os.Network.Names.{find, new_neuron, add_neuron}

module _ (fl : NetFloats) where
  abbrev pub names : List (Neuron fl) → List (List ℕ)
  names ns = map (λ (n : Neuron fl). n.name) ns

  abbrev pub ends_of : Synapse fl → ℕ × ℕ
  ends_of s = (s.from, s.to)

  abbrev pub ends : List (Synapse fl) → List (ℕ × ℕ)
  ends syns = map ends_of syns

  pub record IsWired (net : GenericNetwork fl) : Type 0 where
    pub stimuli : length net.pending_stimulus ≡ length net.neurons
    pub in_range : EndsBelow (length net.neurons) (ends net.synapses)
    pub unique : Unique (names net.neurons)

  -- The same names, ends and number of stimuli.
  pub rewire :
      (net net' : GenericNetwork fl)
      → names net'.neurons ≡ names net.neurons
      → ends net'.synapses ≡ ends net.synapses
      → length net'.pending_stimulus ≡ length net.pending_stimulus
      → IsWired net
      → IsWired net'
  rewire net net' same_names same_ends same_length w =
      let g : Neuron fl → List ℕ = λ n. n.name in
      let count : length net'.neurons ≡ length net.neurons =
        sym (length-map net'.neurons g) ∙ (ap length same_names ∙ length-map net.neurons g) in
      record {
        stimuli = same_length ∙ (w.stimuli ∙ sym count);
        in_range =
            subst (λ n. EndsBelow n (ends net'.synapses)) (sym count)
              (subst (EndsBelow (length net.neurons)) (sym same_ends) w.in_range);
        unique = subst Unique (sym same_names) w.unique;
      }

  pub find-lt :
      (name : List ℕ) (net : GenericNetwork fl) (i : ℕ)
      → find fl name net ≡ some i
      → i < length net.neurons
  unfolding find
  find-lt name net i e =
      let (n, at, same) = position-some (λ (n : Neuron fl). bytes_eq n.name name) net.neurons i e in
      get_elem?-lt net.neurons i at

  position-Absent :
      (name : List ℕ) (ns : List (Neuron fl))
      → position (λ (n : Neuron fl). bytes_eq n.name name) ns ≡ none
      → Absent name (names ns)
  unfolding position
  position-Absent name [] e = tt
  position-Absent name (n ∷ ns) e = (
    (λ same. cc (ap (λ x. bytes_eq x name) same, bytes_eq_refl name, not_here)),
    position-Absent name ns (ground arith),
  )
    where
      not_here : bytes_eq n.name name ≡ false
      not_here = ground arith

  pub add_neuron-IsWired :
      (name : List ℕ) (threshold leak : fl.Carrier) (r : ℕ) (net net' : GenericNetwork fl)
      → IsWired net
      → add_neuron fl name threshold leak r net ≡ ok net'
      → IsWired net'
  unfolding add_neuron find
  add_neuron-IsWired name threshold leak r net net' w e =
      let n = new_neuron fl name threshold leak r in
      elim (Option-cases (find fl name net)) [
        | inr (i, q) ↦ absurd (ground arith)
        | inl q ↦
            let after : GenericNetwork fl = record net {
              neurons = net.neurons ++ (n ∷ []);
              pending_stimulus = net.pending_stimulus ++ (fl.nought ∷ []);
            } in
            let same : after ≡ net' = ground arith in
            subst IsWired same (record {
              stimuli =
                  length-snoc net.pending_stimulus fl.nought
                  ∙ (ap suc w.stimuli ∙ sym (length-snoc net.neurons n));
              in_range =
                  subst (λ k. EndsBelow k (ends net.synapses)) (sym (length-snoc net.neurons n))
                    (EndsBelow-suc (length net.neurons) (ends net.synapses) w.in_range);
              unique = subst Unique (sym (map-snoc (λ (n : Neuron fl). n.name) net.neurons n)) (
                  Unique-snoc name (names net.neurons) (position-Absent name net.neurons q)
                    w.unique);
            })
      ]
