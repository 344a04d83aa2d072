-- ===== src/Mouse/Tests.antt =====
-- Concrete runs of kernel/src/mouse.rs: packets of a mouse, and strokes on a screen of 640 by 480.
use spikeling_os.Base.{
  ℕ, ◌+◌, ◌*◌, ◌%◌, ◌^◌, ◌≡◌, refl, List, [], ◌∷◌, Option, none, some, false, length, arith,
}
use spikeling_os.Mouse.{
  Mouse, line, pixel, prompt, on_interrupt, complete, handle_draw_mode, apply_packet, clamp,
}
use spikeling_os.Mouse.Bounds.{
  Event, arrives, enters, happens, draw_all, AllOnScreen, IsPoint, draw_all-AllOnScreen,
}
use spikeling_os.Mouse.Motion.{
  Packet, send, send_all, total_dx, total_dy, leftwards, downwards, send_all-moves,
}

-- At power-on.
abbrev resting : Mouse
resting = record {
  mouse = record { x = 0; y = 0; left = false; right = false; middle = false; packet_count = 0 };
  packet = 0 ∷ 0 ∷ 0 ∷ [];
  packet_index = 0;
  drawing_enabled = false;
  draw_last = none;
  prev_right = false;
}

abbrev screen : Option (ℕ × ℕ)
screen = some (640, 480)

-- Right by 5 and up by 3; then left by 2 and down by 4.
abbrev two_packets : List Packet
two_packets =
    record { status = 0x08; dx = 5; dy = 3 } ∷ record { status = 0x38; dx = 254; dy = 252 } ∷ []

-- A stray byte, then a press, a stroke to the right and a click of the right button.
abbrev strokes : List Event
strokes =
    enters
    ∷ arrives 0
    ∷ arrives 0x09
    ∷ arrives 5
    ∷ arrives 0
    ∷ arrives 0x09
    ∷ arrives 7
    ∷ arrives 0
    ∷ arrives 0x0a
    ∷ arrives 0
    ∷ arrives 0
    ∷ []

two_packets-x : (send_all screen two_packets resting).mouse.x ≡ 3
unfolding send_all send on_interrupt complete handle_draw_mode apply_packet
two_packets-x = refl

two_packets-y : (send_all screen two_packets resting).mouse.y ≡ 1
unfolding send_all send on_interrupt complete handle_draw_mode apply_packet
two_packets-y = refl

strokes-drawn : (draw_all screen strokes resting).0 ≡ pixel 5 0 ∷ line 5 0 12 0 ∷ prompt ∷ []
unfolding draw_all happens on_interrupt complete handle_draw_mode apply_packet clamp
strokes-drawn = refl

send_all-moves_example :
    (((send_all screen two_packets resting).mouse.x + 256 * leftwards two_packets) % 2 ^ 32
      ≡ (resting.mouse.x + total_dx two_packets) % 2 ^ 32)
    × (((send_all screen two_packets resting).mouse.y + total_dy two_packets) % 2 ^ 32
        ≡ (resting.mouse.y + 256 * downwards two_packets) % 2 ^ 32)
    × ((send_all screen two_packets resting).mouse.packet_count % 2 ^ 32
        ≡ (resting.mouse.packet_count + length two_packets) % 2 ^ 32)
    × ((send_all screen two_packets resting).packet_index ≡ 0)
send_all-moves_example =
    send_all-moves screen two_packets resting (refl, (refl, tt)) (omega arith, (omega arith, tt))
      refl refl

draw_all-AllOnScreen_example :
    AllOnScreen 640 480 (draw_all screen strokes resting).0
    × IsPoint 640 480 (draw_all screen strokes resting).1.draw_last
draw_all-AllOnScreen_example =
    draw_all-AllOnScreen 640 480 strokes resting (omega arith) (omega arith) tt
