-- ===== src/Ternary.antt =====
-- kernel/src/ternary.rs: weights as base-3 digits, five to a byte. `encode_scaled` and `decode_scaled` are
-- what stands between the scaled integer and the bytes; Ternary.Weights has the floating-point steps
-- around them.
pub mod RoundTrip
pub mod Weights
mod Tests
use spikeling_os.Base.{
  ℕ, zero, suc, ◌+◌, ◌-◌, ◌*◌, ◌/◌, ◌%◌, ◌^◌, ◌==◌, List, [], ◌∷◌, ◌++◌, map, if◌then◌else◌, length,
  take,
}

-- A trit, an i8 of value -1, 0 or 1.
pub data Trit : Type 0 where
  minus_one null one : Trit

-- `t as i32 + 1`
abbrev pub to_digit : Trit → ℕ
to_digit minus_one = 0
to_digit null = 1
to_digit one = 2

-- `((v % 3) - 1) as i8`
abbrev pub of_digit : ℕ → Trit
of_digit zero = minus_one
of_digit (suc zero) = null
of_digit (suc (suc n)) = one

abbrev pub trits_per_weight : ℕ
trits_per_weight = 10

-- 3^10 - 1
abbrev pub weight_max_digit : ℕ
weight_max_digit = 59048

-- `while digits.len() % 5 != 0 { digits.push(1) }`, at most `fuel` times.
unfoldable pub pad : ℕ → List ℕ → List ℕ
pad zero digits = digits
pad (suc fuel) digits =
    let more = pad fuel (digits ++ 1 ∷ []) in if length digits % 5 == 0 then digits else more

-- `digits.chunks(5)`, each as one byte. A last chunk of fewer digits would panic; `pad` leaves none.
unfoldable pub pack_chunks : List ℕ → List ℕ
pack_chunks (a ∷ b ∷ c ∷ d ∷ e ∷ rest) =
    (a * 1 + b * 3 + c * 9 + d * 27 + e * 81) % 2 ^ 8 ∷ pack_chunks rest
pack_chunks _ = []

unfoldable pub pack_ternary : List Trit → List ℕ
pack_ternary trits = pack_chunks (pad 4 (map to_digit trits))

-- `for _ in 0..n { out.push(v % 3 - 1); v /= 3 }`
unfoldable pub take_digits : ℕ → ℕ → List Trit
take_digits zero v = []
take_digits (suc n) v = of_digit (v % 3) ∷ take_digits n (v / 3)

unfoldable pub unpack_bytes : List ℕ → List Trit
unpack_bytes [] = []
unpack_bytes (b ∷ bs) = take_digits 5 b ++ unpack_bytes bs

unfoldable pub unpack_ternary : List ℕ → ℕ → List Trit
unpack_ternary packed n_trits = take n_trits (unpack_bytes packed)

unfoldable pub encode_scaled : ℕ → List ℕ
encode_scaled scaled = pack_ternary (take_digits trits_per_weight scaled)

-- `for &t in &trits { scaled += digit * mul; mul *= 3 }`
unfoldable pub sum_digits : List Trit → ℕ → ℕ → ℕ
sum_digits [] scaled mul = scaled
sum_digits (t ∷ ts) scaled mul =
    sum_digits ts ((scaled + to_digit t * mul) % 2 ^ 32) (mul * 3 % 2 ^ 32)

unfoldable pub decode_scaled : List ℕ → ℕ
decode_scaled bytes = sum_digits (unpack_ternary bytes trits_per_weight) 0 1
