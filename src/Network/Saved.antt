-- ===== src/Network/Saved.antt =====
-- kernel/src/neurons.rs: the fixed network of two keys and a motor, what the keyboard does to it, and its
-- weights on the drive. The float constants are a parameter.
use spikeling_os.Base.{ℕ, ◌+◌, ◌==◌, List, [], ◌∷◌, Option, none, some, Bool, if◌then◌else◌, length}
use spikeling_os.Base.Result.{Result, ok, err}
use spikeling_os.Ata.{Disk}
use spikeling_os.Ata.Persist.{SaveError, not_initialized, save_weights, load_weights}
use spikeling_os.Ternary.Weights.{WeightFloats}
use spikeling_os.Network.{NetFloats, GenericNetwork}
use spikeling_os.Network.Names.{
  attempt, stimulate, train_synapse, seed_fixed_network, all_synapse_weights, apply_synapse_weight,
}

-- "LeftKey"
abbrev pub left_key : List ℕ
left_key = 76 ∷ 101 ∷ 102 ∷ 116 ∷ 75 ∷ 101 ∷ 121 ∷ []

-- "RightKey"
abbrev pub right_key : List ℕ
right_key = 82 ∷ 105 ∷ 103 ∷ 104 ∷ 116 ∷ 75 ∷ 101 ∷ 121 ∷ []

-- "Motor"
abbrev pub motor_name : List ℕ
motor_name = 77 ∷ 111 ∷ 116 ∷ 111 ∷ 114 ∷ []

abbrev pub key_refractory_ticks : ℕ
key_refractory_ticks = 7

pub record KeyConstants (C : Type 0) : Type 0 where
  pub key_threshold : C
  pub key_leak : C
  pub motor_threshold : C
  pub motor_leak : C
  pub initial_weight : C
  pub key_stim_amount : C

pub record LoadReport : Type 0 where
  pub matched : ℕ
  pub total_in_file : ℕ

module _ (fl : NetFloats) (wf : WeightFloats fl.Carrier) (k : KeyConstants fl.Carrier) where
  -- How many of the entries name a synapse, and the network with their weights.
  unfoldable pub apply_weights :
      List (List ℕ × List ℕ × fl.Carrier) → GenericNetwork fl → ℕ × GenericNetwork fl
  apply_weights [] net = (0, net)
  apply_weights ((from, to, w) ∷ es) net =
      let (found, net1) = apply_synapse_weight fl from to w net in
      let (matched, net2) = apply_weights es net1 in (if found then matched + 1 else matched, net2)

  abbrev pub seeded : GenericNetwork fl → GenericNetwork fl
  seeded net =
      seed_fixed_network fl left_key right_key motor_name (k.key_threshold, k.key_leak)
        (k.motor_threshold, k.motor_leak) key_refractory_ticks (k.initial_weight, k.initial_weight)
        net

  unfoldable pub init : Disk → GenericNetwork fl → Option LoadReport × GenericNetwork fl
  init d net = elim (load_weights wf d) [
    | none ↦ (none, seeded net)
    | some entries ↦
        let (matched, net') = apply_weights entries (seeded net) in
        (some (record { matched = matched; total_in_file = length entries }), net')
  ]

  -- 'a' and 'd'
  unfoldable pub on_key_stimulus : ℕ → GenericNetwork fl → GenericNetwork fl
  on_key_stimulus c net =
      if c == 97
      then attempt fl (stimulate fl left_key k.key_stim_amount) net
      else if c == 100
      then attempt fl (stimulate fl right_key k.key_stim_amount) net
      else net

  unfoldable pub save_weights_to_disk : GenericNetwork fl → Disk → Result SaveError Disk
  save_weights_to_disk net d = elim (all_synapse_weights fl net) [
    | [] ↦ err not_initialized
    | e ∷ es ↦ save_weights wf (e ∷ es) d
  ]

  unfoldable pub run_training_trial : Bool → ℕ → GenericNetwork fl → GenericNetwork fl
  run_training_trial ltp gap_ticks net =
      elim (train_synapse fl left_key motor_name gap_ticks ltp net) [
        | ok (ws, net') ↦ net'
        | err e ↦ net
      ]
