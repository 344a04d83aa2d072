-- ===== src/Ternary/Weights.antt =====
-- kernel/src/ternary.rs, encode_weight() and decode_weight(). f32 and libm are a parameter; that a weight
-- clamped to the range from 0 to 1 is scaled to at most 59048 is what `scale_fits` says of them. A cast of
-- a NaN to an integer gives 0.
use spikeling_os.Base.{◌≡◌, ap, ℕ, ◌≤◌, List, length, refl}
use spikeling_os.Ternary.{
  weight_max_digit, encode_scaled, decode_scaled, take_digits, pack_ternary, pad, pack_chunks,
}
use spikeling_os.Ternary.RoundTrip.{decode_scaled-encode_scaled}

pub record WeightFloats (C : Type 0) : Type 0 where
  pub nought : C
  pub unit : C
  pub clamp_f32 : C → C → C → C
  pub mul : C → C → C
  pub div : C → C → C
  -- `n as f32`
  pub of_u32 : ℕ → C
  pub roundf : C → C
  -- `x as u32`
  pub to_u32 : C → ℕ
  pub scale_fits :
      (w : C)
      → to_u32 (roundf (mul (clamp_f32 w nought unit) (of_u32 weight_max_digit))) ≤ weight_max_digit

module _ {C : Type 0} (wf : WeightFloats C) where
  abbrev pub scaled_weight : C → ℕ
  scaled_weight w =
      wf.to_u32 (wf.roundf (wf.mul (wf.clamp_f32 w wf.nought wf.unit) (wf.of_u32 weight_max_digit)))

  unfoldable pub encode_weight : C → List ℕ
  encode_weight w = encode_scaled (scaled_weight w)

  abbrev pub unscaled_weight : ℕ → C
  unscaled_weight scaled = wf.div (wf.of_u32 scaled) (wf.of_u32 weight_max_digit)

  unfoldable pub decode_weight : List ℕ → C
  decode_weight bytes = unscaled_weight (decode_scaled bytes)

  pub length-encode_weight : (w : C) → length (encode_weight w) ≡ 2
  unfolding encode_weight encode_scaled take_digits pack_ternary pad pack_chunks
  length-encode_weight w = refl

  pub decode_weight-encode_weight :
      (w : C) → decode_weight (encode_weight w) ≡ unscaled_weight (scaled_weight w)
  unfolding encode_weight decode_weight
  decode_weight-encode_weight w =
      ap unscaled_weight (decode_scaled-encode_scaled (scaled_weight w) (wf.scale_fits w))
