-- ===== src/Ternary/RoundTrip.antt =====
-- kernel/src/ternary.rs: reading back what was packed.
use spikeling_os.Base.{
  ℕ, zero, suc, ◌+◌, ◌-◌, ◌*◌, ◌/◌, ◌%◌, ◌^◌, ◌≤◌, ◌<◌, ◌==◌, ◌≡◌, refl, ap, ap₂, sym, ◌∙◌, List,
  [], ◌∷◌, ◌++◌, map, arith, length, append-nil, take, length-append, take-append, append_assoc,
  Bool-cases, inl, inr,
}
use spikeling_os.Ternary.{
  Trit, minus_one, null, one, to_digit, of_digit, trits_per_weight, weight_max_digit, pad,
  pack_chunks, pack_ternary, take_digits, unpack_bytes, unpack_ternary, encode_scaled, sum_digits,
  decode_scaled,
}

-- Enough pushes are left to reach a multiple of 5.
pub pad-whole :
    (fuel : ℕ) (digits : List ℕ)
    → (5 - length digits % 5) % 5 ≤ fuel
    → length (pad fuel digits) % 5 ≡ 0
unfolding pad
pad-whole zero digits h = omega arith
pad-whole (suc fuel) digits h = elim (Bool-cases (length digits % 5 == 0)) [
  | inl e ↦ rw e (ground arith)
  | inr e ↦ rw e (pad-whole fuel (digits ++ 1 ∷ []) (ground (arith, length-append digits (1 ∷ []))))
]

abbrev AllDigits : List ℕ → Type 0
AllDigits [] = Unit {0}
AllDigits (d ∷ ds) = (d < 3) × AllDigits ds

AllDigits-append : (xs ys : List ℕ) → AllDigits xs → AllDigits ys → AllDigits (xs ++ ys)
AllDigits-append [] ys h g = g
AllDigits-append (x ∷ xs) ys h g = (h.0, AllDigits-append xs ys h.1 g)

digits_of : (trits : List Trit) → AllDigits (map to_digit trits)
digits_of [] = tt
digits_of (minus_one ∷ ts) = (omega arith, digits_of ts)
digits_of (null ∷ ts) = (omega arith, digits_of ts)
digits_of (one ∷ ts) = (omega arith, digits_of ts)

-- Padding appends digits.
pad-appends :
    (fuel : ℕ) (digits : List ℕ)
    → (rest : List ℕ) × (pad fuel digits ≡ digits ++ rest) × AllDigits rest
unfolding pad
pad-appends zero digits = ([], sym (append-nil digits), tt)
pad-appends (suc fuel) digits = elim (Bool-cases (length digits % 5 == 0)) [
  | inl e ↦ ([], rw e (sym (append-nil digits)), tt)
  | inr e ↦
      let (rest, same, small) = pad-appends fuel (digits ++ 1 ∷ []) in
      (1 ∷ rest, rw e (same ∙ append_assoc digits (1 ∷ []) rest), (omega arith, small))
]

take_digits-byte :
    (a b c d e : ℕ)
    → a < 3
    → b < 3
    → c < 3
    → d < 3
    → e < 3
    → take_digits 5 ((a * 1 + b * 3 + c * 9 + d * 27 + e * 81) % 2 ^ 8)
      ≡ of_digit a ∷ of_digit b ∷ of_digit c ∷ of_digit d ∷ of_digit e ∷ []
unfolding take_digits
take_digits-byte a b c d e ha hb hc hd he = ap₂ ◌∷◌ (ap of_digit (omega arith)) (
    ap₂ ◌∷◌ (ap of_digit (omega arith)) (
      ap₂ ◌∷◌ (ap of_digit (omega arith))
        (ap₂ ◌∷◌ (ap of_digit (omega arith)) (ap₂ ◌∷◌ (ap of_digit (omega arith)) refl))))

unpack_bytes-pack_chunks :
    (digits : List ℕ)
    → AllDigits digits
    → length digits % 5 ≡ 0
    → unpack_bytes (pack_chunks digits) ≡ map of_digit digits
unfolding unpack_bytes pack_chunks
unpack_bytes-pack_chunks [] h w = refl
unpack_bytes-pack_chunks (a ∷ []) h w = absurd (omega arith)
unpack_bytes-pack_chunks (a ∷ b ∷ []) h w = absurd (omega arith)
unpack_bytes-pack_chunks (a ∷ b ∷ c ∷ []) h w = absurd (omega arith)
unpack_bytes-pack_chunks (a ∷ b ∷ c ∷ d ∷ []) h w = absurd (omega arith)
unpack_bytes-pack_chunks (a ∷ b ∷ c ∷ d ∷ e ∷ rest) (ha, (hb, (hc, (hd, (he, hr))))) w =
    ap₂ ◌++◌ (take_digits-byte a b c d e ha hb hc hd he)
      (unpack_bytes-pack_chunks rest hr (omega arith))

map-append : (xs ys : List ℕ) → map of_digit (xs ++ ys) ≡ map of_digit xs ++ map of_digit ys
map-append [] ys = refl
map-append (x ∷ xs) ys = ap (λ r. of_digit x ∷ r) (map-append xs ys)

of_digit-to_digit : (trits : List Trit) → map of_digit (map to_digit trits) ≡ trits
of_digit-to_digit [] = refl
of_digit-to_digit (minus_one ∷ ts) = ap (λ r. minus_one ∷ r) (of_digit-to_digit ts)
of_digit-to_digit (null ∷ ts) = ap (λ r. null ∷ r) (of_digit-to_digit ts)
of_digit-to_digit (one ∷ ts) = ap (λ r. one ∷ r) (of_digit-to_digit ts)

-- Any sequence of trits, of whatever length, is what unpack_ternary() reads back from the bytes that
-- pack_ternary() makes of it, when it is asked for as many trits as there were.
pub unpack_ternary-pack_ternary :
    (trits : List Trit) → unpack_ternary (pack_ternary trits) (length trits) ≡ trits
unfolding unpack_ternary pack_ternary
unpack_ternary-pack_ternary trits =
    let digits = map to_digit trits in
    let (rest, same, small) = pad-appends 4 digits in
    let whole = pad-whole 4 digits (omega arith) in
    ap (λ p. take (length trits) (unpack_bytes (pack_chunks p))) same
    ∙ ap (take (length trits)) (
        unpack_bytes-pack_chunks (digits ++ rest)
          (AllDigits-append digits rest (digits_of trits) small)
          (sym (ap (λ p. length p % 5) same) ∙ whole)
        ∙ map-append digits rest
        ∙ ap (λ r. r ++ map of_digit rest) (of_digit-to_digit trits))
    ∙ take-append trits (map of_digit rest)

digit_back : (x : ℕ) → x < 3 → to_digit (of_digit x) ≡ x
digit_back zero h = refl
digit_back (suc zero) h = refl
digit_back (suc (suc zero)) h = refl
digit_back (suc (suc (suc n))) h = absurd (omega arith)

length-take_digits : (n v : ℕ) → length (take_digits n v) ≡ n
unfolding take_digits
length-take_digits zero v = refl
length-take_digits (suc n) v = ap suc (length-take_digits n (v / 3))

sum_of_ten :
    (scaled : ℕ) → scaled ≤ weight_max_digit → sum_digits (take_digits 10 scaled) 0 1 ≡ scaled
unfolding sum_digits take_digits
sum_of_ten scaled h = omega (
  arith,
  digit_back (scaled % 3) (omega arith),
  digit_back (scaled / 3 % 3) (omega arith),
  digit_back (scaled / 3 / 3 % 3) (omega arith),
  digit_back (scaled / 3 / 3 / 3 % 3) (omega arith),
  digit_back (scaled / 3 / 3 / 3 / 3 % 3) (omega arith),
  digit_back (scaled / 3 / 3 / 3 / 3 / 3 % 3) (omega arith),
  digit_back (scaled / 3 / 3 / 3 / 3 / 3 / 3 % 3) (omega arith),
  digit_back (scaled / 3 / 3 / 3 / 3 / 3 / 3 / 3 % 3) (omega arith),
  digit_back (scaled / 3 / 3 / 3 / 3 / 3 / 3 / 3 / 3 % 3) (omega arith),
  digit_back (scaled / 3 / 3 / 3 / 3 / 3 / 3 / 3 / 3 / 3 % 3) (omega arith),
)

-- Every scaled weight, 0 to 59048, is read back from its two bytes exactly.
pub decode_scaled-encode_scaled :
    (scaled : ℕ) → scaled ≤ weight_max_digit → decode_scaled (encode_scaled scaled) ≡ scaled
unfolding decode_scaled encode_scaled
decode_scaled-encode_scaled scaled h =
    ap (λ n. sum_digits (unpack_ternary (pack_ternary (take_digits trits_per_weight scaled)) n) 0 1)
      (sym (length-take_digits trits_per_weight scaled))
    ∙ ap (λ t. sum_digits t 0 1) (unpack_ternary-pack_ternary (take_digits trits_per_weight scaled))
    ∙ sum_of_ten scaled h
