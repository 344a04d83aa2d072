-- ===== src/Console/Draw.antt =====
-- kernel/src/console.rs: draw_line(), by Bresenham's algorithm, and draw_rect(). `none` is a panic, or a loop
-- that has not ended when the fuel has. Coordinates are signed in the code, and here naturals; those from
-- 2 ^ 63 on, which the casts make negative, are not modelled.
use spikeling_os.Base.{
  ℕ, zero, suc, ◌+◌, ◌-◌, ◌*◌, ◌^◌, ltb, leb, ◌==◌, ◌&&◌, ◌||◌, Option, none, some, Bool, true,
  false, if◌then◌else◌,
}
use spikeling_os.Console.{usize, Console, draw_pixel}

-- `(a - b).abs()`
abbrev pub distance : ℕ → ℕ → ℕ
distance a b = (a - b) + (b - a)

-- The loop's variables: the point, and `err`, which is `plus - minus`.
pub record Pen : Type 0 where
  pub x : ℕ
  pub y : ℕ
  pub plus : ℕ
  pub minus : ℕ

-- `x0 += sx`, towards the target.
abbrev pub towards : ℕ → ℕ → ℕ → ℕ
towards start target at = if ltb start target then at + 1 else at - 1

-- `if e2 >= dy { … } if e2 <= dx { … }`, with `dx` and `-dy` as naturals.
abbrev pub move_pen : (ℕ → ℕ) → (ℕ → ℕ) → ℕ → ℕ → Pen → Pen
move_pen step_x step_y dx down p =
    let along = leb (2 * p.minus) (2 * p.plus + down) in
    let across = leb (2 * p.plus) (2 * p.minus + dx) in
    record {
      x = if along then step_x p.x else p.x;
      y = if across then step_y p.y else p.y;
      plus = if across then p.plus + dx else p.plus;
      minus = if along then p.minus + down else p.minus;
    }

unfoldable pub line_from : ℕ → (ℕ → ℕ) → (ℕ → ℕ) → ℕ → ℕ → ℕ → ℕ → Pen → Console → Option Console
line_from zero step_x step_y dx down x1 y1 p c = none
line_from (suc n) step_x step_y dx down x1 y1 p c = elim (draw_pixel p.x p.y true c) [
  | none ↦ none
  | some c' ↦ elim ((p.x == x1) && (p.y == y1)) [
    | true ↦ some c'
    | false ↦ line_from n step_x step_y dx down x1 y1 (move_pen step_x step_y dx down p) c'
  ]
]

-- At most one round for each step in either direction, and one more.
unfoldable pub draw_line : ℕ → ℕ → ℕ → ℕ → Console → Option Console
draw_line x0 y0 x1 y1 c =
    let dx = distance x1 x0 in
    let down = distance y1 y0 in
    line_from (dx + down + 1) (towards x0 x1) (towards y0 y1) dx down x1 y1
      (record { x = x0; y = y0; plus = dx; minus = down }) c

-- `for row in y..=y1`, with `n` rows to go: none where `y1` has wrapped below `y`.
unfoldable pub fill_rows : ℕ → ℕ → ℕ → ℕ → Console → Option Console
fill_rows x x1 row zero c = some c
fill_rows x x1 row (suc n) c = elim (draw_line x row x1 row c) [
  | none ↦ none
  | some c' ↦ fill_rows x x1 (row + 1) n c'
]

abbrev pub then_line : ℕ → ℕ → ℕ → ℕ → Option Console → Option Console
then_line x0 y0 x1 y1 none = none
then_line x0 y0 x1 y1 (some c) = draw_line x0 y0 x1 y1 c

unfoldable pub draw_rect : ℕ → ℕ → ℕ → ℕ → Bool → Console → Option Console
draw_rect x y width height filled c =
    let x1 = usize (usize (x + width) + (2 ^ 64 - 1)) in
    let y1 = usize (usize (y + height) + (2 ^ 64 - 1)) in
    if (width == 0) || (height == 0)
    then some c
    else if filled
    then fill_rows x x1 y (y1 + 1 - y) c
    else then_line x1 y x1 y1 (then_line x y x y1 (then_line x y1 x1 y1 (draw_line x y x1 y c)))
