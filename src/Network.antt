-- ===== src/Network.antt =====
-- kernel/src/network.rs and kernel/src/neurons.rs: the spiking network. f32 is a parameter, with the
-- constants and operations that the code applies to it, libm's among them. Counters keep their width;
-- what a firing does to the speaker is a result.
pub mod Learning
pub mod Tick
pub mod Names
pub mod Ends
pub mod Wired
pub mod Steps
pub mod Reach
pub mod Rest
pub mod Golden
pub mod Saved
pub mod Boot
mod Tests
mod BootTests
use spikeling_os.Base.{
  ℕ, zero, suc, ◌+◌, ◌-◌, ◌^◌, ◌%◌, ltb, leb, ◌==◌, List, [], ◌∷◌, Option, none, some, Bool,
  if◌then◌else◌,
}

pub record NetFloats : Type 1 where
  pub Carrier : Type 0
  pub nought : Carrier
  pub unit : Carrier
  pub spike_gain : Carrier
  pub stdp_rate : Carrier
  pub stdp_tau_ms : Carrier
  pub tick_period_ms : Carrier
  pub initial_evidence : Carrier
  pub evidence_beta : Carrier
  pub gate_on_threshold : Carrier
  pub gate_off_threshold : Carrier
  -- `n as f32`
  pub of_ticks : ℕ → Carrier
  pub add : Carrier → Carrier → Carrier
  pub sub : Carrier → Carrier → Carrier
  pub mul : Carrier → Carrier → Carrier
  pub div : Carrier → Carrier → Carrier
  pub neg : Carrier → Carrier
  pub max_of : Carrier → Carrier → Carrier
  pub min_of : Carrier → Carrier → Carrier
  pub expf : Carrier → Carrier
  pub lt : Carrier → Carrier → Bool
  pub ge : Carrier → Carrier → Bool
  pub same : Carrier → Carrier → Bool
  -- `libm::roundf(PHI * PHI * n as f32) as u64`
  pub golden_start : ℕ → ℕ

abbrev pub correlation_window_ticks : ℕ
correlation_window_ticks = 15

abbrev pub fast_tau_ticks : ℕ
fast_tau_ticks = 7

abbrev pub beep_duration_ticks : ℕ
beep_duration_ticks = 40

-- Sums and differences of u64 and u32.
abbrev pub add_u64 : ℕ → ℕ → ℕ
add_u64 a b = (a + b) % 2 ^ 64

abbrev pub sub_u64 : ℕ → ℕ → ℕ
sub_u64 a b = ((a + 2 ^ 64) - b) % 2 ^ 64

abbrev pub inc_u32 : ℕ → ℕ
inc_u32 n = (n + 1) % 2 ^ 32

module _ (fl : NetFloats) where
  pub record Neuron : Type 0 where
    pub name : List ℕ
    pub v : fl.Carrier
    pub threshold : fl.Carrier
    pub leak : fl.Carrier
    pub fire_count : ℕ
    pub last_fire_tick : Option ℕ
    pub refractory_ticks : ℕ
    pub refractory_remaining : ℕ

  pub record Synapse : Type 0 where
    pub from : ℕ
    pub to : ℕ
    pub weight : fl.Carrier
    pub gate : Bool
    pub evidence : fl.Carrier
    pub pending_pre_fire_tick : Option ℕ

  pub record GenericNetwork : Type 0 where
    pub neurons : List Neuron
    pub synapses : List Synapse
    pub pending_stimulus : List fl.Carrier
    pub beep_ticks_remaining : ℕ
    pub tick_count : ℕ
