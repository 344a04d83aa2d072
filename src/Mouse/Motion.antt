-- ===== src/Mouse/Motion.antt =====
-- kernel/src/mouse.rs, on_interrupt(): the movement that a stream of packets adds up to.
use spikeling_os.Base.{
  ℕ, suc, ◌+◌, ◌-◌, ◌*◌, ◌%◌, ◌^◌, ◌<◌, ◌≡◌, refl, ap, List, [], ◌∷◌, Bool, true, false, arith,
  Option, length, if◌then◌else◌, set, ◌&&◌, not,
}
use spikeling_os.Mouse.{
  Mouse, bit, Drawn, delta, apply_packet, handle_draw_mode, complete, on_interrupt, exit_draw_mode,
  draw_on, prompt,
}

-- A packet of three bytes.
pub record Packet : Type 0 where
  pub status : ℕ
  pub dx : ℕ
  pub dy : ℕ

unfoldable pub send : Option (ℕ × ℕ) → Packet → Mouse → Mouse
send screen p s =
    (on_interrupt screen p.dy (on_interrupt screen p.dx (on_interrupt screen p.status s).1).1).1

-- The three bytes of every packet arrive, one after the other.
unfoldable pub send_all : Option (ℕ × ℕ) → List Packet → Mouse → Mouse
send_all screen [] s = s
send_all screen (p ∷ ps) s = send_all screen ps (send screen p s)

-- Every first byte has the bit that tells it from the others.
abbrev pub AllMarked : List Packet → Type 0
AllMarked [] = Unit
AllMarked (p ∷ ps) = (bit 3 p.status ≡ true) × AllMarked ps

-- The sum of the movement bytes along x, and how many of them have the sign set.
abbrev pub total_dx : List Packet → ℕ
total_dx [] = 0
total_dx (p ∷ ps) = p.dx + total_dx ps

abbrev pub leftwards : List Packet → ℕ
leftwards [] = 0
leftwards (p ∷ ps) = (if bit 4 p.status then 1 else 0) + leftwards ps

abbrev pub total_dy : List Packet → ℕ
total_dy [] = 0
total_dy (p ∷ ps) = p.dy + total_dy ps

abbrev pub downwards : List Packet → ℕ
downwards [] = 0
downwards (p ∷ ps) = (if bit 5 p.status then 1 else 0) + downwards ps

-- A movement along y is a byte.
abbrev pub AllBytes : List Packet → Type 0
AllBytes [] = Unit
AllBytes (p ∷ ps) = (p.dy < 256) × AllBytes ps

-- What stays as it is when a packet is drawn: the mouse and the reader of packets.
abbrev IsKept : Mouse → Mouse → Type 0
IsKept a b = (b.mouse ≡ a.mouse) × (b.packet ≡ a.packet) × (b.packet_index ≡ a.packet_index)

if-IsKept :
    (s : Mouse) (c : Bool) (a b : List Drawn × Mouse)
    → IsKept s a.1
    → IsKept s b.1
    → IsKept s (if c then a else b).1
if-IsKept s true a b p q = p
if-IsKept s false a b p q = q

draw_on-IsKept :
    (screen : Option (ℕ × ℕ)) (left : Bool) (s : Mouse) → IsKept s (draw_on screen left s).1
draw_on-IsKept Option.none left s = (refl, refl, refl)
draw_on-IsKept (Option.some (w, h)) true s = (refl, refl, refl)
draw_on-IsKept (Option.some (w, h)) false s = (refl, refl, refl)

handle_draw_mode-IsKept :
    (screen : Option (ℕ × ℕ)) (s : Mouse) → IsKept s (handle_draw_mode screen s).1
unfolding handle_draw_mode
handle_draw_mode-IsKept screen s =
    let pressed : Mouse = record s { prev_right = s.mouse.right } in
    if-IsKept s s.drawing_enabled _ ([], s)
      (if-IsKept s (s.mouse.right && not s.prev_right) (prompt ∷ [], exit_draw_mode pressed) _
        (refl, refl, refl) (draw_on-IsKept screen s.mouse.left pressed))
      (refl, refl, refl)

on_interrupt-first :
    (screen : Option (ℕ × ℕ)) (byte : ℕ) (s : Mouse)
    → bit 3 byte ≡ true
    → s.packet_index ≡ 0
    → (on_interrupt screen byte s).1 ≡ record s { packet = set s.packet 0 byte; packet_index = 1 }
unfolding on_interrupt
on_interrupt-first screen byte s marked at = rw (on_interrupt, at, marked) refl

on_interrupt-second :
    (screen : Option (ℕ × ℕ)) (byte : ℕ) (s : Mouse)
    → s.packet_index ≡ 1
    → (on_interrupt screen byte s).1 ≡ record s { packet = set s.packet 1 byte; packet_index = 2 }
unfolding on_interrupt
on_interrupt-second screen byte s at = rw (on_interrupt, at) refl

on_interrupt-third :
    (screen : Option (ℕ × ℕ)) (byte : ℕ) (s : Mouse)
    → s.packet_index ≡ 2
    → (on_interrupt screen byte s).1
      ≡ (complete screen (record s { packet = set s.packet 2 byte; packet_index = 3 })).1
unfolding on_interrupt complete
on_interrupt-third screen byte s at = rw (on_interrupt, at) refl

set_three :
    (xs : List ℕ) (a b c : ℕ) → length xs ≡ 3 → set (set (set xs 0 a) 1 b) 2 c ≡ a ∷ b ∷ c ∷ []
set_three [] a b c len = ground arith
set_three (x ∷ []) a b c len = ground arith
set_three (x ∷ y ∷ []) a b c len = ground arith
set_three (x ∷ y ∷ z ∷ []) a b c len = refl
set_three (x ∷ y ∷ z ∷ u ∷ rest) a b c len = ground arith

-- The three bytes of a packet are put together, whatever the buffer held before.
send-complete :
    (screen : Option (ℕ × ℕ)) (p : Packet) (s : Mouse)
    → bit 3 p.status ≡ true
    → s.packet_index ≡ 0
    → length s.packet ≡ 3
    → send screen p s
      ≡ (complete screen (record s { packet = p.status ∷ p.dx ∷ p.dy ∷ []; packet_index = 3 })).1
unfolding send
send-complete screen p s marked at len =
    rw
      (
        send,
        on_interrupt-first screen p.status s marked at,
        on_interrupt-second screen p.dx
            (record s { packet = set s.packet 0 p.status; packet_index = 1 }) refl,
        on_interrupt-third screen p.dy
            (record s { packet = set (set s.packet 0 p.status) 1 p.dx; packet_index = 2 }) refl,
        set_three s.packet p.status p.dx p.dy len,
      )
      refl

send-at :
    (screen : Option (ℕ × ℕ)) (p : Packet) (s : Mouse)
    → bit 3 p.status ≡ true
    → s.packet_index ≡ 0
    → length s.packet ≡ 3
    → ((send screen p s).mouse ≡ apply_packet p.status p.dx p.dy s.mouse)
      × (length (send screen p s).packet ≡ 3)
      × ((send screen p s).packet_index ≡ 0)
unfolding complete
send-at screen p s marked at len =
    let done : Mouse = record s {
      packet = p.status ∷ p.dx ∷ p.dy ∷ [];
      packet_index = 0;
      mouse = apply_packet p.status p.dx p.dy s.mouse;
    } in
    let kept = handle_draw_mode-IsKept screen done in
    rw (send-complete screen p s marked at len) (kept.0, ap length kept.1, kept.2)

move_right :
    (neg : Bool) (x x1 x2 raw rest negs : ℕ)
    → x1 ≡ (x + delta neg raw) % 2 ^ 32
    → (x2 + 256 * negs) % 2 ^ 32 ≡ (x1 + rest) % 2 ^ 32
    → (x2 + 256 * ((if neg then 1 else 0) + negs)) % 2 ^ 32 ≡ (x + (raw + rest)) % 2 ^ 32
move_right true x x1 x2 raw rest negs here later = omega arith
move_right false x x1 x2 raw rest negs here later = omega arith

move_up :
    (neg : Bool) (y y1 y2 raw rest negs : ℕ)
    → raw < 256
    → y1 ≡ (y + (2 ^ 32 - delta neg raw)) % 2 ^ 32
    → (y2 + rest) % 2 ^ 32 ≡ (y1 + 256 * negs) % 2 ^ 32
    → (y2 + (raw + rest)) % 2 ^ 32 ≡ (y + 256 * ((if neg then 1 else 0) + negs)) % 2 ^ 32
move_up true y y1 y2 raw rest negs byte here later = omega arith
move_up false y y1 y2 raw rest negs byte here later = omega arith

count_up :
    (c c1 c2 n : ℕ)
    → c1 ≡ (c + 1) % 2 ^ 32
    → c2 % 2 ^ 32 ≡ (c1 + n) % 2 ^ 32
    → c2 % 2 ^ 32 ≡ (c + suc n) % 2 ^ 32
count_up c c1 c2 n here later = omega arith

-- Sent whole packets of bytes, from a packet's start on, the mouse moves along x by the sum of the movement
-- bytes, less 256 for each that has its sign set, modulo 2 ^ 32; it moves the other way along y by
-- the same rule; and each packet is counted. The reader then is at a packet's start again.
pub send_all-moves :
    (screen : Option (ℕ × ℕ)) (ps : List Packet) (s : Mouse)
    → AllMarked ps
    → AllBytes ps
    → s.packet_index ≡ 0
    → length s.packet ≡ 3
    → (((send_all screen ps s).mouse.x + 256 * leftwards ps) % 2 ^ 32
        ≡ (s.mouse.x + total_dx ps) % 2 ^ 32)
      × (((send_all screen ps s).mouse.y + total_dy ps) % 2 ^ 32
          ≡ (s.mouse.y + 256 * downwards ps) % 2 ^ 32)
      × ((send_all screen ps s).mouse.packet_count % 2 ^ 32
          ≡ (s.mouse.packet_count + length ps) % 2 ^ 32)
      × ((send_all screen ps s).packet_index ≡ 0)
unfolding send_all apply_packet
send_all-moves screen [] s marked bytes at len = (ground arith, ground arith, ground arith, at)
send_all-moves screen (p ∷ ps) s marked bytes at len =
    let here = send-at screen p s marked.0 at len in
    let rest = send_all-moves screen ps (send screen p s) marked.1 bytes.1 here.2 here.1 in
    (
      move_right (bit 4 p.status) s.mouse.x _ _ p.dx _ _ (ap (λ m. m.x) here.0) rest.0,
      move_up (bit 5 p.status) s.mouse.y _ _ p.dy _ _ bytes.0 (ap (λ m. m.y) here.0) rest.1,
      count_up s.mouse.packet_count _ _ _ (ap (λ m. m.packet_count) here.0) rest.2,
      rest.3,
    )
