-- ===== src/Console/Line.antt =====
-- kernel/src/console.rs: draw_line() reaches its end, within one round for each step in either direction.
use native.Mathlib.Nat.{mul-suc, mul_comm, mul-le-mul_left}
use spikeling_os.Base.{
  ℕ, zero, suc, ◌+◌, ◌-◌, ◌*◌, ◌^◌, ◌≤◌, ◌<◌, ◌≡◌, ◌⊎◌, refl, ap, ◌∙◌, ltb, leb, ◌==◌, ◌&&◌, ◌||◌,
  Option, Bool, true, false, if◌then◌else◌, arith, Bool-cases, inl, inr, dec_lt,
}
use spikeling_os.Base.Branch.{if-either}
use spikeling_os.Console.{usize, Console, draw_pixel}
use spikeling_os.Console.Draw.{
  distance, Pen, towards, move_pen, line_from, draw_line, fill_rows, then_line, draw_rect,
}
use spikeling_os.Console.Safe.{IsFramed, Holds, Holds-self, Holds-then, write_pixel-Holds}

-- Where a coordinate is after `i` steps.
abbrev place : ℕ → ℕ → ℕ → ℕ
place start target i = if ltb start target then start + i else start - i

place_end :
    (start target i : ℕ)
    → i ≤ distance target start
    → place start target i ≡ target
    → i ≡ distance target start
place_end start target i h e = ground arith

end_place : (start target : ℕ) → place start target (distance target start) ≡ target
end_place start target = ground arith

towards-place :
    (start target i : ℕ) → towards start target (place start target i) ≡ place start target (i + 1)
towards-place start target i = ground arith

-- The first coordinate is not moved past its end, nor the second past its own.
no_overshoot_x :
    (dx down j p m : ℕ) → p ≡ dx * suc j → m ≡ down * suc dx → j < down → 2 * p + down < 2 * m
no_overshoot_x dx down j p m ep em lt =
    let le : dx * suc j ≤ dx * down = mul-le-mul_left dx (omega arith) in
    omega (arith, le, mul-suc down dx, mul_comm down dx)

no_overshoot_y :
    (dx down i p m : ℕ) → p ≡ dx * suc down → m ≡ down * suc i → i < dx → 2 * m + dx < 2 * p
no_overshoot_y dx down i p m ep em lt =
    let le : down * suc i ≤ down * dx = mul-le-mul_left down (omega arith) in
    omega (arith, le, mul-suc dx down, mul_comm down dx)

abbrev count : Bool → ℕ → ℕ
count b i = if b then suc i else i

count-place :
    (b : Bool) (start target x i : ℕ)
    → x ≡ place start target i
    → (if b then towards start target x else x) ≡ place start target (count b i)
count-place true start target x i e =
    ap (towards start target) e
    ∙ (towards-place start target i ∙ ap (place start target) {x = i + 1} {y = suc i} (omega arith))
count-place false start target x i e = e

count-sum : (b : Bool) (d k s : ℕ) → s ≡ d * suc k → (if b then s + d else s) ≡ d * suc (count b k)
count-sum true d k s e = omega (arith, mul-suc d (suc k))
count-sum false d k s e = e

count-le : (b : Bool) (i d : ℕ) → i ≤ d → (b ≡ true → i < d) → count b i ≤ d
count-le true i d h k = omega (arith, k refl)
count-le false i d h k = h

-- Of the two tests on `err`, each fails where its coordinate is at its end, and one of them holds.
along_lt :
    (dx down i j p m : ℕ)
    → i ≤ dx
    → j ≤ down
    → (i < dx) ⊎ (j < down)
    → p ≡ dx * suc j
    → m ≡ down * suc i
    → 2 * m ≤ 2 * p + down
    → i < dx
along_lt dx down i j p m hi hj short ep em test = elim (dec_lt i dx) [
  | yes lt ↦ lt
  | no ge ↦
      let last : i ≡ dx = omega arith in
      let here : j < down = elim short [ inl l ↦ absurd (ge l) | inr l ↦ l ] in
      absurd
        (omega (arith, no_overshoot_x dx down j p m ep (em ∙ ap (λ k. down * suc k) last) here))
]

across_lt :
    (dx down i j p m : ℕ)
    → i ≤ dx
    → j ≤ down
    → (i < dx) ⊎ (j < down)
    → p ≡ dx * suc j
    → m ≡ down * suc i
    → 2 * p ≤ 2 * m + dx
    → j < down
across_lt dx down i j p m hi hj short ep em test = elim (dec_lt j down) [
  | yes lt ↦ lt
  | no ge ↦
      let last : j ≡ down = omega arith in
      let here : i < dx = elim short [ inl l ↦ l | inr l ↦ absurd (ge l) ] in
      absurd (omega (arith, no_overshoot_y dx down i p m (ep ∙ ap (λ k. dx * suc k) last) em here))
]

one_moves :
    (p m dx down i j : ℕ)
    → i + j < count (leb (2 * m) (2 * p + down)) i + count (leb (2 * p) (2 * m + dx)) j
one_moves p m dx down i j = ground arith

-- The pen after `i` steps along and `j` steps across.
record At (x0 y0 x1 y1 i j : ℕ) (p : Pen) : Type 0 where
  along : i ≤ distance x1 x0
  across : j ≤ distance y1 y0
  at_x : p.x ≡ place x0 x1 i
  at_y : p.y ≡ place y0 y1 j
  sum_x : p.plus ≡ distance x1 x0 * suc j
  sum_y : p.minus ≡ distance y1 y0 * suc i

abbrev goes_along : ℕ → Pen → Bool
goes_along down p = leb (2 * p.minus) (2 * p.plus + down)

abbrev goes_across : ℕ → Pen → Bool
goes_across dx p = leb (2 * p.plus) (2 * p.minus + dx)

-- Short of the end, the pen moves past neither end.
moves :
    (x0 y0 x1 y1 i j : ℕ) (p : Pen)
    → At x0 y0 x1 y1 i j p
    → (i < distance x1 x0) ⊎ (j < distance y1 y0)
    → At x0 y0 x1 y1
        (count (goes_along (distance y1 y0) p) i)
        (count (goes_across (distance x1 x0) p) j)
        (move_pen (towards x0 x1) (towards y0 y1) (distance x1 x0) (distance y1 y0) p)
moves x0 y0 x1 y1 i j p a short =
    let dx = distance x1 x0 in
    let down = distance y1 y0 in
    let lt_x = along_lt dx down i j p.plus p.minus a.along a.across short a.sum_x a.sum_y in
    let lt_y = across_lt dx down i j p.plus p.minus a.along a.across short a.sum_x a.sum_y in
    record {
      along = count-le (goes_along down p) i dx a.along (λ e. lt_x (leb-le _ _ e));
      across = count-le (goes_across dx p) j down a.across (λ e. lt_y (leb-le _ _ e));
      at_x = count-place (goes_along down p) x0 x1 p.x i a.at_x;
      at_y = count-place (goes_across dx p) y0 y1 p.y j a.at_y;
      sum_x = count-sum (goes_across dx p) dx j p.plus a.sum_x;
      sum_y = count-sum (goes_along down p) down i p.minus a.sum_y;
    }
  where
    leb-le : (a b : ℕ) → leb a b ≡ true → a ≤ b
    leb-le a b e = ground arith

-- The ends of a line, below 2 ^ 38.
record Near (x0 y0 x1 y1 : ℕ) : Type 0 where
  from_x : x0 < 2 ^ 38
  from_y : y0 < 2 ^ 38
  to_x : x1 < 2 ^ 38
  to_y : y1 < 2 ^ 38

place_lt :
    (start target i : ℕ)
    → start < 2 ^ 38
    → target < 2 ^ 38
    → i ≤ distance target start
    → place start target i < 2 ^ 38
place_lt start target i hs ht h = ground arith

module _ (limit k : ℕ) where
  line_from-Holds :
      (n x0 y0 x1 y1 i j : ℕ) (p : Pen) (c : Console)
      → Near x0 y0 x1 y1
      → IsFramed limit k c
      → At x0 y0 x1 y1 i j p
      → distance x1 x0 + distance y1 y0 < n + (i + j)
      → Holds limit k c
          (line_from n (towards x0 x1) (towards y0 y1) (distance x1 x0) (distance y1 y0) x1 y1 p c)
  unfolding line_from
  line_from-Holds zero x0 y0 x1 y1 i j p c near f a fuel = absurd (omega (arith, a.along, a.across))
  line_from-Holds (suc n) x0 y0 x1 y1 i j p c near f a fuel =
      Holds-then limit k limit k c (draw_pixel p.x p.y true c) _
        (write_pixel-Holds limit k p.x p.y 255 c
          (omega (arith, a.at_x, place_lt x0 x1 i near.from_x near.to_x a.along))
          (omega (arith, a.at_y, place_lt y0 y1 j near.from_y near.to_y a.across)) f)
        (λ c' f'. elim (Bool-cases ((p.x == x1) && (p.y == y1))) [
          | inl ended ↦ rw ended (Holds-self limit k c' f')
          | inr off ↦ rw off (
              line_from-Holds n x0 y0 x1 y1 (count (goes_along (distance y1 y0) p) i)
                (count (goes_across (distance x1 x0) p) j) _ c' near f'
                (moves x0 y0 x1 y1 i j p a (short off))
                (omega (arith, one_moves p.plus p.minus (distance x1 x0) (distance y1 y0) i j)))
        ])
    where
      short : ((p.x == x1) && (p.y == y1)) ≡ false → (i < distance x1 x0) ⊎ (j < distance y1 y0)
      short off = elim (dec_lt i (distance x1 x0)) [
        | yes lt ↦ inl lt
        | no ge ↦ elim (dec_lt j (distance y1 y0)) [
          | yes lt ↦ inr lt
          | no ge' ↦
              let at_end : p.x ≡ x1 =
                a.at_x ∙ (ap (place x0 x1) (omega (arith, a.along)) ∙ end_place x0 x1) in
              let at_end' : p.y ≡ y1 =
                a.at_y ∙ (ap (place y0 y1) (omega (arith, a.across)) ∙ end_place y0 y1) in
              absurd (ground arith)
        ]
      ]

  line-Holds :
      (x0 y0 x1 y1 : ℕ) (c : Console)
      → Near x0 y0 x1 y1
      → IsFramed limit k c
      → Holds limit k c (draw_line x0 y0 x1 y1 c)
  unfolding draw_line
  line-Holds x0 y0 x1 y1 c near f =
      line_from-Holds (distance x1 x0 + distance y1 y0 + 1) x0 y0 x1 y1 0 0 _ c near f
        (record {
          along = omega arith;
          across = omega arith;
          at_x = ground arith;
          at_y = ground arith;
          sum_x = omega arith;
          sum_y = omega arith;
        })
        (omega arith)

  pub draw_line-Holds :
      (x0 y0 x1 y1 : ℕ) (c : Console)
      → x0 < 2 ^ 38
      → y0 < 2 ^ 38
      → x1 < 2 ^ 38
      → y1 < 2 ^ 38
      → IsFramed limit k c
      → Holds limit k c (draw_line x0 y0 x1 y1 c)
  draw_line-Holds x0 y0 x1 y1 c a b d e f =
      line-Holds x0 y0 x1 y1 c (record { from_x = a; from_y = b; to_x = d; to_y = e }) f

  fill_rows-Holds :
      (x x1 row n : ℕ) (c : Console)
      → x < 2 ^ 38
      → x1 < 2 ^ 38
      → row + n ≤ 2 ^ 38
      → IsFramed limit k c
      → Holds limit k c (fill_rows x x1 row n c)
  unfolding fill_rows
  fill_rows-Holds x x1 row zero c hx hx1 hr f = Holds-self limit k c f
  fill_rows-Holds x x1 row (suc n) c hx hx1 hr f =
      Holds-then limit k limit k c (draw_line x row x1 row c) (fill_rows x x1 (row + 1) n)
        (draw_line-Holds x row x1 row c hx (omega arith) hx1 (omega arith) f)
        (λ c' f'. fill_rows-Holds x x1 (row + 1) n c' hx hx1 (omega arith) f')

  then_line-Holds :
      (x0 y0 x1 y1 : ℕ) (c : Console) (o : Option Console)
      → x0 < 2 ^ 38
      → y0 < 2 ^ 38
      → x1 < 2 ^ 38
      → y1 < 2 ^ 38
      → Holds limit k c o
      → Holds limit k c (then_line x0 y0 x1 y1 o)
  then_line-Holds x0 y0 x1 y1 c o a b d e h =
      let more = draw_line-Holds x0 y0 x1 y1 h.result a b d e h.framed in
      record {
        result = more.result;
        done = rw h.done more.done;
        same_length = more.same_length ∙ h.same_length;
        same_info = more.same_info ∙ h.same_info;
        framed = more.framed;
      }

  pub draw_rect-Holds :
      (x y width height : ℕ) (filled : Bool) (c : Console)
      → x < 2 ^ 32
      → y < 2 ^ 32
      → width < 2 ^ 32
      → height < 2 ^ 32
      → IsFramed limit k c
      → Holds limit k c (draw_rect x y width height filled c)
  unfolding draw_rect
  draw_rect-Holds x y width height filled c hx hy hw hh f =
      let x1 = usize (usize (x + width) + (2 ^ 64 - 1)) in
      let y1 = usize (usize (y + height) + (2 ^ 64 - 1)) in
      if-either (Holds limit k c) ((width == 0) || (height == 0)) (λ e. Holds-self limit k c f)
        (λ e.
          let wide : 0 < width = ground arith in
          let high : 0 < height = ground arith in
          let a : x < 2 ^ 38 = omega arith in
          let b : y < 2 ^ 38 = omega arith in
          let d : x1 < 2 ^ 38 = omega (arith, wide) in
          let g : y1 < 2 ^ 38 = omega (arith, high) in
          if-either (Holds limit k c) filled
            (λ t. fill_rows-Holds x x1 y (y1 + 1 - y) c a d (omega (arith, g, b)) f)
            (λ t. then_line-Holds x1 y x1 y1 c _ d b d g (
              then_line-Holds x y x y1 c _ a b a g
                (then_line-Holds x y1 x1 y1 c _ a g d g (draw_line-Holds x y x1 y c a b d b f)))))
