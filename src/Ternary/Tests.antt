-- ===== src/Ternary/Tests.antt =====
-- Weights of kernel/src/ternary.rs, packed and read back.
use spikeling_os.Base.{◌≡◌, refl, List, [], ◌∷◌}
use spikeling_os.Ternary.{
  Trit, minus_one, null, one, pad, pack_chunks, pack_ternary, take_digits, encode_scaled,
}

abbrev seven : List Trit
seven = one ∷ minus_one ∷ null ∷ one ∷ one ∷ minus_one ∷ null ∷ []

seven_packed : pack_ternary seven ≡ 227 ∷ 120 ∷ []
unfolding pack_ternary pad pack_chunks
seven_packed = refl

half_encoded : encode_scaled 29524 ≡ 121 ∷ 121 ∷ []
unfolding encode_scaled take_digits pack_ternary pad pack_chunks
half_encoded = refl
