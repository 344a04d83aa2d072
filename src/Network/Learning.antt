-- ===== src/Network/Learning.antt =====
-- kernel/src/network.rs: apply_stdp(), update_evidence(), gcd() and golden_period(), and the gates.
use spikeling_os.Base.{
  ℕ, zero, suc, ◌+◌, ◌-◌, ◌^◌, ◌%◌, ltb, ◌==◌, max, List, map, Option, some, Bool, true, false, not,
  ◌&&◌, if◌then◌else◌,
}
use spikeling_os.Network.{NetFloats, Synapse, sub_u64}

-- `post_t as i64 - pre_t as i64`: whether it is negative, and how far from 0.
abbrev pub dt_ticks : ℕ → ℕ → Bool × ℕ
dt_ticks pre post =
    let d = sub_u64 post pre in if ltb d (2 ^ 63) then (false, d) else (true, 2 ^ 64 - d)

-- Euclid's algorithm, on fuel: `gcd(a, b)` takes at most `b + 1` steps.
unfoldable pub gcd_in : ℕ → ℕ → ℕ → ℕ
gcd_in zero a b = a
gcd_in (suc n) a b = let rest = gcd_in n b (a % b) in if b == 0 then a else rest

abbrev pub gcd : ℕ → ℕ → ℕ
gcd a b = gcd_in (b + 1) a b

-- `loop { if gcd(p, fast_tau.max(1)) == 1 { return p } p += 1 }`
unfoldable pub search_coprime : ℕ → ℕ → ℕ → ℕ
search_coprime zero tau p = p
search_coprime (suc n) tau p =
    let rest = search_coprime n tau (p + 1) in if gcd p (max 1 tau) == 1 then p else rest

module _ (fl : NetFloats) where
  unfoldable pub apply_stdp : fl.Carrier → Option ℕ → Option ℕ → fl.Carrier
  apply_stdp weight (some pre) (some post) =
      let (before, ticks) = dt_ticks pre post in
      let dt_ms = fl.mul (fl.of_ticks ticks) fl.tick_period_ms in
      let delta = fl.mul fl.stdp_rate (fl.expf (fl.div (fl.neg dt_ms) fl.stdp_tau_ms)) in
      if fl.same dt_ms fl.nought
      then weight
      else if before
      then fl.max_of (fl.sub weight delta) fl.nought
      else fl.min_of (fl.add weight delta) fl.unit
  apply_stdp weight pre post = weight

  unfoldable pub update_evidence : fl.Carrier → Bool → fl.Carrier
  update_evidence evidence hit =
      let sample = if hit then fl.unit else fl.nought in
      fl.add (fl.mul evidence fl.evidence_beta) (fl.mul sample (fl.sub fl.unit fl.evidence_beta))

  abbrev pub first_period : ℕ → ℕ
  first_period fast_tau = max (fl.golden_start fast_tau) 2

  -- The search ends within `fast_tau` steps.
  unfoldable pub golden_period : ℕ → ℕ
  golden_period fast_tau = search_coprime (max 1 fast_tau) fast_tau (first_period fast_tau)

  unfoldable pub evaluate_gate : Synapse fl → Synapse fl
  evaluate_gate syn =
      if syn.gate && fl.lt syn.evidence fl.gate_off_threshold
      then record syn { gate = false }
      else if not syn.gate && fl.lt fl.gate_on_threshold syn.evidence
      then record syn { gate = true }
      else syn

  abbrev pub evaluate_gates : List (Synapse fl) → List (Synapse fl)
  evaluate_gates syns = map evaluate_gate syns
