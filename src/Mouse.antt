-- ===== src/Mouse.antt =====
-- kernel/src/mouse.rs: the PS/2 mouse's packets and the drawing mode. A byte that the controller
-- hands over is an argument; the screen's size is a parameter, `none` if there is no framebuffer.
-- An i32 is its two's complement word, a number below 2 ^ 32, with sums that wrap; a byte is below
-- 256, and a test of bit `2 ^ k` is written as a division.
pub mod Bounds
pub mod Motion
mod Tests
use spikeling_os.Base.{
  ℕ, ◌+◌, ◌-◌, ◌/◌, ◌%◌, ◌^◌, ◌==◌, ◌&&◌, min, ltb, List, [], ◌∷◌, Option, none, some, Bool, true,
  false, not, if◌then◌else◌, get_or, set,
}

abbrev pub bit : ℕ → ℕ → Bool
bit k v = (v / 2 ^ k) % 2 == 1

pub record MouseState : Type 0 where
  pub x : ℕ
  pub y : ℕ
  pub left : Bool
  pub right : Bool
  pub middle : Bool
  pub packet_count : ℕ

-- The statics MOUSE, PACKET, PACKET_INDEX, DRAWING_ENABLED, DRAW_LAST and PREV_RIGHT.
pub record Mouse : Type 0 where
  pub mouse : MouseState
  pub packet : List ℕ
  pub packet_index : ℕ
  pub drawing_enabled : Bool
  pub draw_last : Option (ℕ × ℕ)
  pub prev_right : Bool

-- What the console is asked for.
pub data Drawn : Type 0 where
  line : ℕ → ℕ → ℕ → ℕ → Drawn
  pixel : ℕ → ℕ → Drawn
  prompt : Drawn

abbrev pub enter_draw_mode : Mouse → Mouse
enter_draw_mode s = record s { drawing_enabled = true; draw_last = none; prev_right = false }

abbrev pub exit_draw_mode : Mouse → Mouse
exit_draw_mode s = record s { drawing_enabled = false; draw_last = none }

-- `x.clamp(0, n as i32 - 1) as usize`
unfoldable pub clamp : ℕ → ℕ → ℕ
clamp x n = if ltb x (2 ^ 31) then min x (n - 1) else 0

abbrev pub stroke : Option (ℕ × ℕ) → ℕ → ℕ → Drawn
stroke none cx cy = pixel cx cy
stroke (some (lx, ly)) cx cy = line lx ly cx cy

-- The rest of handle_draw_mode(), once the position is known.
abbrev pub draw_at : ℕ → ℕ → Bool → Mouse → List Drawn × Mouse
draw_at cx cy left s =
    if left
    then (stroke s.draw_last cx cy ∷ [], record s { draw_last = some (cx, cy) })
    else ([], record s { draw_last = none })

abbrev pub draw_on : Option (ℕ × ℕ) → Bool → Mouse → List Drawn × Mouse
draw_on none left s = ([], s)
draw_on (some (sw, sh)) left s = draw_at (clamp s.mouse.x sw) (clamp s.mouse.y sh) left s

-- The buttons and the position are those that `mouse` has by then.
unfoldable pub handle_draw_mode : Option (ℕ × ℕ) → Mouse → List Drawn × Mouse
handle_draw_mode screen s =
    let right = s.mouse.right in
    let pressed : Mouse = record s { prev_right = right } in
    if s.drawing_enabled
    then (if right && not s.prev_right
        then (prompt ∷ [], exit_draw_mode pressed)
        else draw_on screen s.mouse.left pressed)
    else ([], s)

-- `if status & sign != 0 { raw - 256 } else { raw }`
abbrev pub delta : Bool → ℕ → ℕ
delta negative raw = if negative then raw + (2 ^ 32 - 256) else raw

unfoldable pub apply_packet : ℕ → ℕ → ℕ → MouseState → MouseState
apply_packet status dx_raw dy_raw m = record {
  x = (m.x + delta (bit 4 status) dx_raw) % 2 ^ 32;
  y = (m.y + (2 ^ 32 - delta (bit 5 status) dy_raw)) % 2 ^ 32;
  left = bit 0 status;
  right = bit 1 status;
  middle = bit 2 status;
  packet_count = (m.packet_count + 1) % 2 ^ 32;
}

-- The part of on_interrupt() for the third byte of a packet.
unfoldable pub complete : Option (ℕ × ℕ) → Mouse → List Drawn × Mouse
complete screen s =
    let moved =
      apply_packet (get_or s.packet 0 0) (get_or s.packet 1 0) (get_or s.packet 2 0) s.mouse in
    handle_draw_mode screen (record s { packet_index = 0; mouse = moved })

unfoldable pub on_interrupt : Option (ℕ × ℕ) → ℕ → Mouse → List Drawn × Mouse
on_interrupt screen byte s =
    let stored : Mouse = record s {
      packet = set s.packet s.packet_index byte;
      packet_index = s.packet_index + 1;
    } in
    if (s.packet_index == 0) && not (bit 3 byte)
    then ([], s)
    else if s.packet_index + 1 == 3
    then complete screen stored
    else ([], stored)
