-- ===== src/Ata/Persist/RoundTrip.antt =====
-- kernel/src/ata.rs: saved weights are read back.
use spikeling_os.Base.{
  ℕ, zero, suc, ◌+◌, ◌-◌, ◌*◌, ◌==◌, ◌≤◌, ◌≡◌, ◌≢◌, refl, sym, ap, ap₂, ◌∙◌, List, [], ◌∷◌, ◌++◌,
  map, none, some, true, false, min, append-nil, append_assoc, arith, length, take, drop, replicate,
  position, length-append, length-take, length-replicate, take_exact, drop_exact, drop-drop,
  take_all, subst, to_le_bytes, from_le_bytes, Bool-cases, inl, inr,
}
use spikeling_os.Base.Utf8.{is_utf8}
use spikeling_os.Base.Result.{ok, err}
use spikeling_os.Ata.{Disk, read_sector, write_sector, drive_address, store}
use spikeling_os.Ata.Persist.{
  ata_error, persist_lba, persist_name_len, persist_entry_len, packed_bytes_per_weight, header_len,
  max_synapses, write_name, name_end, read_name, save_entry, save_entries, weights_sector,
  save_weights, load_entry, load_weight_entries, parse_weights, load_weights,
}
use spikeling_os.Ternary.Weights.{
  WeightFloats, scaled_weight, unscaled_weight, encode_weight, decode_weight, length-encode_weight,
  decode_weight-encode_weight,
}

abbrev pub HasNoZero : List ℕ → Type 0
HasNoZero [] = Unit {0}
HasNoZero (b ∷ bs) = (b ≢ 0) × HasNoZero bs

-- A name that its field holds whole: text of at most sixteen bytes with no zero.
pub record FitsField (name : List ℕ) : Type 0 where
  pub short : length name ≤ persist_name_len
  pub no_zero : HasNoZero name
  pub text : is_utf8 name ≡ true

position-ended :
    (xs ys : List ℕ) → HasNoZero xs → position (λ b. b == 0) (xs ++ 0 ∷ ys) ≡ some (length xs)
unfolding position
position-ended [] ys h = refl
position-ended (x ∷ xs) ys h = ground (arith, h.0, position-ended xs ys h.1)

position-whole : (xs : List ℕ) → HasNoZero xs → position (λ b. b == 0) xs ≡ none
unfolding position
position-whole [] h = refl
position-whole (x ∷ xs) h = ground (arith, h.0, position-whole xs h.1)

length-write_name : (name : List ℕ) → length (write_name name) ≡ persist_name_len
unfolding write_name
length-write_name name = omega (
  arith,
  length-append (take (min (length name) persist_name_len) name)
      (replicate (persist_name_len - min (length name) persist_name_len) 0),
  length-take (min (length name) persist_name_len) name,
  length-replicate {A = ℕ} (persist_name_len - min (length name) persist_name_len) 0,
)

write_name_padded :
    (name : List ℕ)
    → length name ≤ persist_name_len
    → write_name name ≡ name ++ replicate (persist_name_len - length name) 0
unfolding write_name
write_name_padded name h =
    ap₂ ◌++◌ (take_all (min (length name) persist_name_len) name (omega arith))
      (ap (λ n. replicate n 0) (omega arith))

name_end-whole : (xs : List ℕ) → HasNoZero xs → name_end xs ≡ persist_name_len
unfolding name_end
name_end-whole xs h =
    ap (λ o. elim o [ none ↦ persist_name_len | some i ↦ i ]) (position-whole xs h)

name_end-ended : (xs ys : List ℕ) → HasNoZero xs → name_end (xs ++ 0 ∷ ys) ≡ length xs
unfolding name_end
name_end-ended xs ys h =
    ap (λ o. elim o [ none ↦ persist_name_len | some i ↦ i ]) (position-ended xs ys h)

-- A name, padded, ends where it did.
take-name_end :
    (name : List ℕ) (pad : ℕ)
    → HasNoZero name
    → length name + pad ≡ persist_name_len
    → take (name_end (name ++ replicate pad 0)) (name ++ replicate pad 0) ≡ name
take-name_end name zero h e =
    ap (λ n. take (name_end n) n) (append-nil name)
    ∙ ap (λ n. take n name) (name_end-whole name h)
    ∙ take_all persist_name_len name (omega arith)
take-name_end name (suc pad) h e =
    ap (λ n. take n (name ++ 0 ∷ replicate pad 0)) (name_end-ended name (replicate pad 0) h)
    ∙ take_exact (length name) name (0 ∷ replicate pad 0) refl

read_name-write_name :
    (name rest : List ℕ) → FitsField name → read_name (write_name name ++ rest) ≡ name
unfolding read_name
read_name-write_name name rest f =
    let whole : take persist_name_len (write_name name ++ rest)
        ≡ name ++ replicate (persist_name_len - length name) 0 =
      take_exact persist_name_len (write_name name) rest (length-write_name name)
      ∙ write_name_padded name f.short in
    let ended =
      take-name_end name (persist_name_len - length name) f.no_zero (omega (arith, f.short)) in
    rw (whole, ended, f.text) refl

module _ {C : Type 0} (wf : WeightFloats C) where
  -- What is left of an entry: its weight to the nearest of 59049 levels.
  abbrev pub restored : List ℕ × List ℕ × C → List ℕ × List ℕ × C
  restored (from, to, w) = (from, to, unscaled_weight wf (scaled_weight wf w))

  abbrev pub AllNamed : List (List ℕ × List ℕ × C) → Type 0
  AllNamed [] = Unit {0}
  AllNamed ((from, to, w) ∷ es) = FitsField from × FitsField to × AllNamed es

  length-save_entry : (e : List ℕ × List ℕ × C) → length (save_entry wf e) ≡ persist_entry_len
  unfolding save_entry
  length-save_entry (from, to, w) = omega (
    arith,
    length-append (write_name from) (write_name to ++ encode_weight wf w),
    length-append (write_name to) (encode_weight wf w),
    length-write_name from,
    length-write_name to,
    length-encode_weight wf w,
  )

  load_entry-save_entry :
      (from to : List ℕ) (w : C) (rest : List ℕ)
      → FitsField from
      → FitsField to
      → load_entry wf (save_entry wf (from, to, w) ++ rest) ≡ restored (from, to, w)
  unfolding load_entry save_entry
  load_entry-save_entry from to w rest f t = λ i. (
    (ap read_name whole
          ∙ read_name-write_name from ((write_name to ++ encode_weight wf w) ++ rest) f)
        i,
    (ap read_name second ∙ read_name-write_name to (encode_weight wf w ++ rest) t) i,
    (ap (λ b. decode_weight wf (take packed_bytes_per_weight b)) third
          ∙ ap (decode_weight wf)
              (take_exact 2 (encode_weight wf w) rest (length-encode_weight wf w))
          ∙ decode_weight-encode_weight wf w)
        i,
  )
    where
      bytes : List ℕ
      bytes = (write_name from ++ (write_name to ++ encode_weight wf w)) ++ rest

      whole : bytes ≡ write_name from ++ ((write_name to ++ encode_weight wf w) ++ rest)
      whole = append_assoc (write_name from) (write_name to ++ encode_weight wf w) rest

      second : drop persist_name_len bytes ≡ write_name to ++ (encode_weight wf w ++ rest)
      second =
          ap (drop persist_name_len) whole
          ∙ drop_exact persist_name_len (write_name from) _ (length-write_name from)
          ∙ append_assoc (write_name to) (encode_weight wf w) rest

      third : drop (persist_name_len * 2) bytes ≡ encode_weight wf w ++ rest
      third =
          sym (drop-drop persist_name_len persist_name_len bytes)
          ∙ ap (drop persist_name_len) second
          ∙ drop_exact persist_name_len (write_name to) _ (length-write_name to)

  load_weight_entries-save_entries :
      (es : List (List ℕ × List ℕ × C)) (buf rest : List ℕ) (off : ℕ)
      → AllNamed es
      → drop off buf ≡ save_entries wf es ++ rest
      → load_weight_entries wf buf off (length es) ≡ map restored es
  unfolding load_weight_entries save_entries
  load_weight_entries-save_entries [] buf rest off n at = refl
  load_weight_entries-save_entries ((from, to, w) ∷ es) buf rest off (f, t, n) at =
      ap₂ ◌∷◌
        (ap (load_entry wf) here ∙ load_entry-save_entry from to w (save_entries wf es ++ rest) f t)
        (load_weight_entries-save_entries es buf rest (off + persist_entry_len) n next)
    where
      here : drop off buf ≡ save_entry wf (from, to, w) ++ (save_entries wf es ++ rest)
      here = at ∙ append_assoc (save_entry wf (from, to, w)) (save_entries wf es) rest

      next : drop (off + persist_entry_len) buf ≡ save_entries wf es ++ rest
      next =
          sym (drop-drop off persist_entry_len buf)
          ∙ ap (drop persist_entry_len) here
          ∙ drop_exact persist_entry_len (save_entry wf (from, to, w)) _
              (length-save_entry (from, to, w))

take-min {ℓ} : {A : Type ℓ} (n : ℕ) (xs : List A) → take (min (length xs) n) xs ≡ take n xs
take-min zero xs = ap (λ k. take k xs) {x = min (length xs) 0} {y = 0} (omega arith)
take-min (suc n) [] = ap (λ k. take k []) {x = min 0 (suc n)} {y = 0} (omega arith)
take-min (suc n) (x ∷ xs) =
    ap (λ k. take k (x ∷ xs)) {x = min (suc (length xs)) (suc n)} {y = suc (min (length xs) n)}
      (omega arith)
    ∙ ap (λ r. x ∷ r) (take-min n xs)

module _ {C : Type 0} (wf : WeightFloats C) where
  parse_weights-weights_sector :
      (entries : List (List ℕ × List ℕ × C))
      → AllNamed wf (take max_synapses entries)
      → parse_weights wf (weights_sector wf entries)
        ≡ some (map (restored wf) (take max_synapses entries))
  unfolding parse_weights weights_sector to_le_bytes from_le_bytes
  parse_weights-weights_sector entries n =
      let count = min (length entries) max_synapses in
      let kept = take count entries in
      let same : kept ≡ take max_synapses entries = take-min max_synapses entries in
      let as_many : min count max_synapses ≡ length kept =
        omega (arith, length-take count entries) in
      ap some (
        ap (load_weight_entries wf _ header_len) as_many
        ∙ load_weight_entries-save_entries wf kept _ _ header_len (subst (AllNamed wf) (sym same) n)
            refl
        ∙ ap (map (restored wf)) same)

  -- When save_weights() succeeds, load_weights() on a sector that can be read gives back the first
  -- fourteen entries in their order, their names as they were, when these are text of at most sixteen
  -- bytes with no zero, and each weight clamped and rounded to its level of 59049, whatever the names
  -- and weights and however many entries follow.
  pub load_weights-save_weights :
      (entries : List (List ℕ × List ℕ × C)) (d d' : Disk)
      → AllNamed wf (take max_synapses entries)
      → save_weights wf entries d ≡ ok d'
      → d'.read_error (drive_address persist_lba) ≡ false
      → load_weights wf d' ≡ some (map (restored wf) (take max_synapses entries))
  unfolding load_weights save_weights read_sector write_sector
  load_weights-save_weights [] d d' n saved readable = absurd cc
  load_weights-save_weights (e ∷ es) d d' n saved readable =
      elim (Bool-cases (d.write_error (drive_address persist_lba))) [
        | inl bad ↦ absurd (let stop : err ata_error ≡ ok d' = rw bad at saved in cc)
        | inr fine ↦
            let now : ok (store (drive_address persist_lba) (weights_sector wf (e ∷ es)) d)
                ≡ ok d' =
              rw fine at saved in
            let stored : store (drive_address persist_lba) (weights_sector wf (e ∷ es)) d ≡ d' =
              cc in
            rw (load_weights, read_sector, readable)
              (ap (λ x. parse_weights wf (x.sectors (drive_address persist_lba))) (sym stored)
                ∙ parse_weights-weights_sector (e ∷ es) n)
      ]
