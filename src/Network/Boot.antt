-- ===== src/Network/Boot.antt =====
-- kernel/src/neurons.rs: the network that init() leaves, and what its users do to it.
use spikeling_os.Base.{
  ◌≡◌, refl, ℕ, ◌+◌, ◌≤◌, List, [], ◌∷◌, Option, none, some, Bool, arith, length, get_or, min, ap,
  sym, subst, zero, suc, from_le_bytes, ◌==◌, Option-cases, inl, inr, Bool-cases,
}
use spikeling_os.Base.Branch.{if-either}
use spikeling_os.Ata.{Disk, read_sector}
use spikeling_os.Ata.Persist.{
  max_synapses, persist_magic, header_len, load_weights, parse_weights, load_weight_entries,
}
use spikeling_os.Ternary.Weights.{WeightFloats}
use spikeling_os.Network.{NetFloats, GenericNetwork}
use spikeling_os.Network.Names.{apply_synapse_weight}
use spikeling_os.Network.Wired.{IsWired}
use spikeling_os.Network.Steps.{apply_synapse_weight-IsWired}
use spikeling_os.Network.Reach.{
  NetCall, run_call, run_call-IsWired, seed_call, stimulate_call, train_call,
}
use spikeling_os.Network.Saved.{
  KeyConstants, LoadReport, left_key, right_key, motor_name, key_refractory_ticks, apply_weights,
  seeded, init, on_key_stimulus, run_training_trial,
}

module _ (fl : NetFloats) (wf : WeightFloats fl.Carrier) (k : KeyConstants fl.Carrier) where
  length-load_weight_entries :
      (buf : List ℕ) (off n : ℕ) → length (load_weight_entries wf buf off n) ≡ n
  unfolding load_weight_entries
  length-load_weight_entries buf off zero = refl
  length-load_weight_entries buf off (suc n) =
      omega (arith, length-load_weight_entries buf (off + 34) n)

  parse_weights-few :
      (buf : List ℕ) (entries : List (List ℕ × List ℕ × fl.Carrier))
      → parse_weights wf buf ≡ some entries
      → length entries ≤ max_synapses
  unfolding parse_weights
  parse_weights-few buf entries h =
      let n = min (get_or buf 5 0) max_synapses in
      let loaded = load_weight_entries wf buf header_len n in
      elim (Bool-cases (from_le_bytes 4 buf == persist_magic)) [
        | inl e ↦
            let back : some loaded ≡ some entries = rw e at h in
            let same : loaded ≡ entries = cc in
            omega (arith, length-load_weight_entries buf header_len n, ap length same)
        | inr e ↦ absurd (let stop : none ≡ some entries = rw e at h in cc)
      ]

  load_weights-few :
      (d : Disk) (entries : List (List ℕ × List ℕ × fl.Carrier))
      → load_weights wf d ≡ some entries
      → length entries ≤ max_synapses
  unfolding load_weights
  load_weights-few d entries h = elim (Option-cases (read_sector 0 d)) [
    | inl e ↦ absurd (let stop : none ≡ some entries = rw (load_weights, e) at h in cc)
    | inr (buf, e) ↦ parse_weights-few buf entries (rw (load_weights, e) at h)
  ]

  apply_weights-matched :
      (es : List (List ℕ × List ℕ × fl.Carrier)) (net : GenericNetwork fl)
      → (apply_weights fl wf k es net).0 ≤ length es
  unfolding apply_weights
  apply_weights-matched [] net = omega arith
  apply_weights-matched ((from, to, w) ∷ es) net =
      let rest = apply_weights-matched es (apply_synapse_weight fl from to w net).1 in ground arith

  apply_weights-IsWired :
      (es : List (List ℕ × List ℕ × fl.Carrier)) (net : GenericNetwork fl)
      → IsWired fl net
      → IsWired fl (apply_weights fl wf k es net).1
  unfolding apply_weights
  apply_weights-IsWired [] net w = w
  apply_weights-IsWired ((from, to, v) ∷ es) net w =
      apply_weights-IsWired es _ (apply_synapse_weight-IsWired fl from to v net w)

  -- What init() reports: nothing when no weights were found, and otherwise at most fourteen entries, of
  -- which no more were matched than there were.
  abbrev pub Reports : Disk → Option LoadReport → Type 0
  Reports d none = load_weights wf d ≡ none
  Reports d (some r) = (r.matched ≤ r.total_in_file) × (r.total_in_file ≤ max_synapses)

  seeded-IsWired : (net : GenericNetwork fl) → IsWired fl net → IsWired fl (seeded fl wf k net)
  unfolding run_call
  seeded-IsWired net w =
      run_call-IsWired fl
        (seed_call left_key right_key motor_name (k.key_threshold, k.key_leak)
          (k.motor_threshold, k.motor_leak) key_refractory_ticks
          (k.initial_weight, k.initial_weight))
        net w

  init_kept :
      (d : Disk) (net : GenericNetwork fl)
      → IsWired fl net
      → Reports d (init fl wf k d net).0 × IsWired fl (init fl wf k d net).1
  unfolding init
  init_kept d net w = elim (Option-cases (load_weights wf d)) [
    | inl e ↦
        let shape : init fl wf k d net ≡ (none, seeded fl wf k net) = rw (init, e) refl in
        subst (λ r. Reports d r.0 × IsWired fl r.1) (sym shape) (e, seeded-IsWired net w)
    | inr (entries, e) ↦
        let applied = apply_weights fl wf k entries (seeded fl wf k net) in
        let report : LoadReport = record { matched = applied.0; total_in_file = length entries } in
        let shape : init fl wf k d net ≡ (some report, applied.1) = rw (init, e) refl in
        subst (λ r. Reports d r.0 × IsWired fl r.1) (sym shape)
          (
            (apply_weights-matched entries (seeded fl wf k net), load_weights-few d entries e),
            apply_weights-IsWired entries (seeded fl wf k net) (seeded-IsWired net w),
          )
  ]

  key-IsWired :
      (ch : ℕ) (net : GenericNetwork fl)
      → IsWired fl net
      → IsWired fl (on_key_stimulus fl wf k ch net)
  unfolding on_key_stimulus run_call
  key-IsWired ch net w =
      if-either (IsWired fl) (ch == 97)
        (λ e. run_call-IsWired fl (stimulate_call left_key k.key_stim_amount) net w)
        (λ e.
          if-either (IsWired fl) (ch == 100)
            (λ e'. run_call-IsWired fl (stimulate_call right_key k.key_stim_amount) net w)
            (λ e'. w))

  trial-IsWired :
      (ltp : Bool) (gap : ℕ) (net : GenericNetwork fl)
      → IsWired fl net
      → IsWired fl (run_training_trial fl wf k ltp gap net)
  unfolding run_training_trial run_call
  trial-IsWired ltp gap net w = run_call-IsWired fl (train_call left_key motor_name gap ltp) net w

  -- What happens to the network after init(): a press of a key, a trial of training, or any of the calls of
  -- network.rs, ticks among them.
  pub data BootCall : Type 0 where
    key_call : ℕ → BootCall
    trial_call : Bool → ℕ → BootCall
    net_call : NetCall fl → BootCall

  abbrev pub boot_call : BootCall → GenericNetwork fl → GenericNetwork fl
  boot_call (key_call ch) net = on_key_stimulus fl wf k ch net
  boot_call (trial_call ltp gap) net = run_training_trial fl wf k ltp gap net
  boot_call (net_call c) net = run_call fl c net

  unfoldable pub boot_calls : List BootCall → GenericNetwork fl → GenericNetwork fl
  boot_calls [] net = net
  boot_calls (c ∷ cs) net = boot_calls cs (boot_call c net)

  boot_call-IsWired :
      (c : BootCall) (net : GenericNetwork fl) → IsWired fl net → IsWired fl (boot_call c net)
  boot_call-IsWired (key_call ch) net w = key-IsWired ch net w
  boot_call-IsWired (trial_call ltp gap) net w = trial-IsWired ltp gap net w
  boot_call-IsWired (net_call c) net w = run_call-IsWired fl c net w

  boot_calls-IsWired :
      (cs : List BootCall) (net : GenericNetwork fl)
      → IsWired fl net
      → IsWired fl (boot_calls cs net)
  unfolding boot_calls
  boot_calls-IsWired [] net w = w
  boot_calls-IsWired (c ∷ cs) net w =
      boot_calls-IsWired cs (boot_call c net) (boot_call-IsWired c net w)

  -- Whatever the drive holds, init() on a well-formed network and then any sequence of key presses,
  -- training trials, ticks and other calls of network.rs leave it well formed: one pending stimulus
  -- for each neuron, synapses between neurons, no name twice. init() reports at most fourteen
  -- entries, of which no more were matched than there were, and reports nothing only if no weights
  -- could be loaded.
  pub init-IsWired :
      (d : Disk) (net : GenericNetwork fl) (cs : List BootCall)
      → IsWired fl net
      → Reports d (init fl wf k d net).0 × IsWired fl (boot_calls cs (init fl wf k d net).1)
  init-IsWired d net cs w =
      let at_boot = init_kept d net w in
      (at_boot.0, boot_calls-IsWired cs (init fl wf k d net).1 at_boot.1)
