-- ===== src/Rtc/Settle.antt =====
-- kernel/src/rtc.rs, the loop of now(): two readings in a row that agree.
use spikeling_os.Base.{
  ℕ, zero, suc, ◌+◌, ◌≤◌, ◌≡◌, refl, sym, ap, ap₂, ◌∙◌, arith, true, false, some, Option-cases,
  Bool-cases, inl, inr,
}
use spikeling_os.Rtc.{Clock, Fields, bit7, wait, read_fields, same_fields, settle, decode, now}

same_fields-true : (a b : Fields) → same_fields a b ≡ true → a ≡ b
unfolding same_fields
same_fields-true a b h = ground arith

same_fields_refl : (a : Fields) → same_fields a a ≡ true
unfolding same_fields
same_fields_refl a = ground arith

wait-later : (fuel : ℕ) (clock : Clock) (t : ℕ) {s : ℕ} → wait fuel clock t ≡ some s → t ≤ s
unfolding wait
wait-later zero clock t h = cc
wait-later (suc fuel) clock t h = elim (Bool-cases (bit7 (clock t 0x0a))) [
  | inl busy ↦ omega (arith, wait-later fuel clock (t + 1) (rw busy at h))
  | inr quiet ↦ ground arith
]

-- Two readings, the second after the first, that found the same.
abbrev pub Agreed : Clock → Fields → ℕ → Type 0
Agreed clock f u =
    (r : ℕ) × (s : ℕ) × (r + 6 ≤ s)
    × (f ≡ read_fields clock r)
    × (f ≡ read_fields clock s)
    × (u ≡ s + 6)

settle-agrees :
    (fuel : ℕ) (clock : Clock) (t r : ℕ) {f : Fields} {u : ℕ}
    → r + 6 ≤ t
    → settle fuel clock t (read_fields clock r) ≡ some (f, u)
    → Agreed clock f u
unfolding settle
settle-agrees zero clock t r early h = cc
settle-agrees (suc fuel) clock t r {f} {u} early h = elim (Option-cases (wait (suc fuel) clock t)) [
  | inl e ↦ absurd (ground arith)
  | inr (s, e) ↦
      let later = wait-later (suc fuel) clock t e in
      elim (Bool-cases (same_fields (read_fields clock r) (read_fields clock s))) [
        | inl same ↦
            let out : (read_fields clock r ≡ f) × (s + 6 ≡ u) = ground arith in
            (
              r,
              s,
              omega arith,
              sym out.0,
              sym out.0 ∙ same_fields-true (read_fields clock r) (read_fields clock s) same,
              sym out.1,
            )
        | inr other ↦ settle-agrees fuel clock (s + 6) s (omega arith) (ground arith)
      ]
]

-- Whatever the clock does meanwhile, and however long it takes, the date and time that now() returns
-- is decoded from six registers that two readings, one wholly after the other, found to be the same,
-- with the status register as read right after the second.
pub now-agrees :
    (fuel : ℕ) (clock : Clock) (t : ℕ) (dt : Fields)
    → now fuel clock t ≡ some dt
    → (f : Fields) × (u : ℕ) × Agreed clock f u × (dt ≡ decode (clock u 0x0b) f)
unfolding now
now-agrees fuel clock t dt h = elim (Option-cases (wait fuel clock t)) [
  | inl e ↦ absurd (ground arith)
  | inr (s, e) ↦ elim (Option-cases (settle fuel clock (s + 6) (read_fields clock s))) [
    | inl q ↦ absurd (ground arith)
    | inr ((f, u), q) ↦ (f, u, settle-agrees fuel clock (s + 6) s (omega arith) q, ground arith)
  ]
]

wait-quiet :
    (fuel : ℕ) (clock : Clock) (t : ℕ)
    → bit7 (clock t 0x0a) ≡ false
    → wait (suc fuel) clock t ≡ some (t + 1)
unfolding wait
wait-quiet fuel clock t quiet = rw quiet refl

module _ (clock : Clock) (still : (a b reg : ℕ) → clock a reg ≡ clock b reg) where
  read_fields-still : (a b : ℕ) → read_fields clock a ≡ read_fields clock b
  read_fields-still a b = ground (
    arith,
    still a b 0x00,
    still (a + 1) (b + 1) 0x02,
    still (a + 2) (b + 2) 0x04,
    still (a + 3) (b + 3) 0x07,
    still (a + 4) (b + 4) 0x08,
    still (a + 5) (b + 5) 0x09,
  )

  settle-still :
      (fuel t r : ℕ)
      → bit7 (clock t 0x0a) ≡ false
      → settle (suc fuel) clock t (read_fields clock r) ≡ some (read_fields clock r, t + 1 + 6)
  unfolding settle
  settle-still fuel t r quiet =
      rw
        (
          settle,
          wait-quiet fuel clock t quiet,
          read_fields-still (t + 1) r,
          same_fields_refl (read_fields clock r),
        )
        refl

  -- On a clock that stands still and is not updating, now() returns after two readings, and its
  -- answer is decoded from what the registers hold.
  pub now-still :
      (fuel t : ℕ)
      → bit7 (clock t 0x0a) ≡ false
      → now (suc fuel) clock t ≡ some (decode (clock t 0x0b) (read_fields clock t))
  unfolding now
  now-still fuel t quiet =
      let later : bit7 (clock (t + 1 + 6) 0x0a) ≡ false =
        ap bit7 (still (t + 1 + 6) t 0x0a) ∙ quiet in
      rw (now, wait-quiet fuel clock t quiet, settle-still fuel (t + 1 + 6) (t + 1) later)
        (ap₂ (λ b f. some (decode b f)) (still (t + 1 + 6 + 1 + 6) t 0x0b)
          (read_fields-still (t + 1) t))
