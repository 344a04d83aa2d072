-- ===== src/Network/Golden.antt =====
-- kernel/src/network.rs: gcd() and golden_period(). The search of the latter ends.
use spikeling_os.Base.{
  ℕ, zero, suc, ◌+◌, ◌-◌, ◌%◌, ◌≤◌, ◌<◌, ◌≡◌, ◌≢◌, refl, ap, sym, subst, ◌∙◌, max, arith,
  ℕ_discrete,
}
use spikeling_os.Network.{NetFloats, fast_tau_ticks}
use spikeling_os.Network.Learning.{gcd_in, gcd, search_coprime, first_period, golden_period}

-- A number that leaves 1 when divided by `tau` has no factor in common with it.
gcd_in-zero : (n a : ℕ) → gcd_in n a 0 ≡ a
unfolding gcd_in
gcd_in-zero zero a = refl
gcd_in-zero (suc n) a = refl

gcd_in-step : (n a b : ℕ) → b ≢ zero → gcd_in (suc n) a b ≡ gcd_in n b (a % b)
unfolding gcd_in
gcd_in-step n a b ne = ground arith

-- One step for each remainder is enough: more fuel makes no difference.
gcd_in-enough : (n m a b : ℕ) → b ≤ n → b ≤ m → gcd_in (suc n) a b ≡ gcd_in (suc m) a b
gcd_in-enough n m a zero h k = gcd_in-zero (suc n) a ∙ sym (gcd_in-zero (suc m) a)
gcd_in-enough zero m a (suc b) h k = absurd (omega arith)
gcd_in-enough (suc n) zero a (suc b) h k = absurd (omega arith)
gcd_in-enough (suc n) (suc m) a (suc b) h k =
    gcd_in-step (suc n) a (suc b) (λ e. omega arith)
    ∙ (gcd_in-enough n m (suc b) (a % suc b) (omega arith) (omega arith)
        ∙ sym (gcd_in-step (suc m) a (suc b) (λ e. omega arith)))

gcd-next : (p tau : ℕ) → 1 < tau → p % tau ≡ 1 → gcd p tau ≡ 1
gcd-next p tau lt e =
    ap (λ n. gcd_in n p tau) {x = tau + 1} {y = suc tau} (omega arith)
    ∙ (gcd_in-step tau p tau (λ z. omega arith)
        ∙ (ap (gcd_in tau tau) e
            ∙ (ap (λ n. gcd_in n tau 1) {x = tau} {y = suc (tau - 1)} (omega arith)
                ∙ (gcd_in-step (tau - 1) tau 1 (λ z. omega arith)
                    ∙ (ap (gcd_in (tau - 1) 1) {x = tau % 1} {y = 0} (omega arith)
                        ∙ gcd_in-zero (tau - 1) 1)))))

-- The first number from `p` on with no factor in common with `tau`.
pub record IsFirstCoprime (tau p r : ℕ) : Type 0 where
  pub coprime : gcd r (max 1 tau) ≡ 1
  pub from_start : p ≤ r
  pub first : (q : ℕ) → p ≤ q → q < r → gcd q (max 1 tau) ≢ 1

search_coprime-found :
    (n j tau p : ℕ)
    → j < n
    → gcd (p + j) (max 1 tau) ≡ 1
    → IsFirstCoprime tau p (search_coprime n tau p) × (search_coprime n tau p ≤ p + j)
unfolding search_coprime
search_coprime-found zero j tau p h e = absurd (omega arith)
search_coprime-found (suc n) j tau p h e = elim (ℕ_discrete (gcd p (max 1 tau)) 1) [
  | yes one ↦
      subst (λ r. IsFirstCoprime tau p r × (r ≤ p + j)) {x = p} (ground arith)
        (
          record { coprime = one; from_start = omega arith; first = λ q a b c. omega arith },
          omega arith,
        )
  | no more ↦
      let later : (i : ℕ) × (i < n) × (suc i ≡ j) × (gcd ((p + 1) + i) (max 1 tau) ≡ 1) =
        shift j h e more in
      let (i, lt, nxt, one) = later in
      let (found, near) = search_coprime-found n i tau (p + 1) lt one in
      subst (λ r. IsFirstCoprime tau p r × (r ≤ p + j)) {x = search_coprime n tau (p + 1)}
        (ground arith)
        (
          record {
            coprime = found.coprime;
            from_start = omega (arith, found.from_start);
            first = λ q a b c. elim (ℕ_discrete q p) [
              | yes at ↦ more (ap (λ x. gcd x (max 1 tau)) (sym at) ∙ c)
              | no off ↦ found.first q (omega arith) b c
            ];
          },
          omega arith,
        )
]
  where
    shift :
        (j : ℕ)
        → j < suc n
        → gcd (p + j) (max 1 tau) ≡ 1
        → gcd p (max 1 tau) ≢ 1
        → (i : ℕ) × (i < n) × (suc i ≡ j) × (gcd ((p + 1) + i) (max 1 tau) ≡ 1)
    shift zero h e more =
        absurd (more (ap (λ q. gcd q (max 1 tau)) {x = p} {y = p + 0} (omega arith) ∙ e))
    shift (suc j) h e more = (
      j,
      omega arith,
      refl,
      ap (λ q. gcd q (max 1 tau)) {x = (p + 1) + j} {y = p + suc j} (omega arith) ∙ e,
    )

module _ (fl : NetFloats) where
  -- For FAST_TAU_TICKS, the one argument that the kernel uses, the loop of golden_period() ends within seven
  -- steps, whatever rounding gives it to start from: at the first number from there on, and from 2 on,
  -- that the code's gcd() finds to have no factor in common with the fast period.
  pub golden_period-first :
      IsFirstCoprime fast_tau_ticks
        (first_period fl fast_tau_ticks)
        (golden_period fl fast_tau_ticks)
      × (2 ≤ golden_period fl fast_tau_ticks)
      × (golden_period fl fast_tau_ticks < first_period fl fast_tau_ticks + fast_tau_ticks)
  unfolding golden_period
  golden_period-first =
      let p = first_period fl fast_tau_ticks in
      let (j, near, one) = seventh p in
      let (found, close) =
        search_coprime-found 7 j 7 p near (gcd-next (p + j) 7 (omega arith) one) in
      (found, omega (arith, found.from_start), omega arith)
    where
      seventh : (p : ℕ) → (j : ℕ) × (j < 7) × ((p + j) % 7 ≡ 1)
      seventh p = ((8 - p % 7) % 7, omega arith, omega arith)
