-- ===== src/Mouse/Bounds.antt =====
-- kernel/src/mouse.rs, the drawing mode: what it asks of the console lies on the screen.
use spikeling_os.Base.{
  ℕ, ◌≤◌, ◌<◌, List, [], ◌∷◌, ◌++◌, Option, none, some, Bool, true, false, arith, ◌&&◌, not,
  if◌then◌else◌, set, ◌+◌, ◌==◌,
}
use spikeling_os.Mouse.{
  Mouse, Drawn, line, pixel, prompt, enter_draw_mode, exit_draw_mode, clamp, stroke, draw_at,
  handle_draw_mode, complete, on_interrupt, bit,
}

-- What happens to the mouse: a byte arrives, or the shell turns the drawing mode on or off.
pub data Event : Type 0 where
  arrives : ℕ → Event
  enters : Event
  exits : Event

unfoldable pub happens : Option (ℕ × ℕ) → Event → Mouse → List Drawn × Mouse
happens screen (arrives byte) s = on_interrupt screen byte s
happens screen enters s = ([], enter_draw_mode s)
happens screen exits s = ([], exit_draw_mode s)

-- All that is drawn, in order, and the state after it.
unfoldable pub draw_all : Option (ℕ × ℕ) → List Event → Mouse → List Drawn × Mouse
draw_all screen [] s = ([], s)
draw_all screen (e ∷ es) s =
    let first = happens screen e s in
    let rest = draw_all screen es first.1 in (first.0 ++ rest.0, rest.1)

module _ (w h : ℕ) where
  abbrev pub IsOnScreen : Drawn → Type 0
  IsOnScreen (line lx ly cx cy) = (lx < w) × (ly < h) × (cx < w) × (cy < h)
  IsOnScreen (pixel cx cy) = (cx < w) × (cy < h)
  IsOnScreen prompt = Unit

  abbrev pub AllOnScreen : List Drawn → Type 0
  AllOnScreen [] = Unit
  AllOnScreen (d ∷ ds) = IsOnScreen d × AllOnScreen ds

  abbrev pub IsPoint : Option (ℕ × ℕ) → Type 0
  IsPoint none = Unit
  IsPoint (some (x, y)) = (x < w) × (y < h)

  -- What a step draws is on the screen, and so is the point that it remembers.
  abbrev IsStep : List Drawn × Mouse → Type 0
  IsStep r = AllOnScreen r.0 × IsPoint r.1.draw_last

  AllOnScreen-append : (a b : List Drawn) → AllOnScreen a → AllOnScreen b → AllOnScreen (a ++ b)
  AllOnScreen-append [] b p q = q
  AllOnScreen-append (d ∷ ds) b (p, ps) q = (p, AllOnScreen-append ds b ps q)

  if-IsStep :
      (c : Bool) (a b : List Drawn × Mouse) → IsStep a → IsStep b → IsStep (if c then a else b)
  if-IsStep true a b p q = p
  if-IsStep false a b p q = q

  clamp-lt : (x n : ℕ) → 1 ≤ n → clamp x n < n
  unfolding clamp
  clamp-lt x n pos = ground arith

  stroke-IsOnScreen :
      (last : Option (ℕ × ℕ)) (cx cy : ℕ)
      → IsPoint last
      → cx < w
      → cy < h
      → IsOnScreen (stroke last cx cy)
  stroke-IsOnScreen none cx cy p a b = (a, b)
  stroke-IsOnScreen (some (lx, ly)) cx cy (p, q) a b = (p, q, a, b)

  draw_at-IsStep :
      (cx cy : ℕ) (left : Bool) (s : Mouse)
      → IsPoint s.draw_last
      → cx < w
      → cy < h
      → IsStep (draw_at cx cy left s)
  draw_at-IsStep cx cy true s p a b = ((stroke-IsOnScreen s.draw_last cx cy p a b, tt), (a, b))
  draw_at-IsStep cx cy false s p a b = (tt, tt)

  handle_draw_mode-IsStep :
      (s : Mouse) → 1 ≤ w → 1 ≤ h → IsPoint s.draw_last → IsStep (handle_draw_mode (some (w, h)) s)
  unfolding handle_draw_mode
  handle_draw_mode-IsStep s a b p =
      let pressed : Mouse = record s { prev_right = s.mouse.right } in
      let drawn : List Drawn × Mouse =
        draw_at (clamp s.mouse.x w) (clamp s.mouse.y h) s.mouse.left pressed in
      let exits : List Drawn × Mouse = (prompt ∷ [], exit_draw_mode pressed) in
      if-IsStep s.drawing_enabled _ ([], s)
        (if-IsStep (s.mouse.right && not s.prev_right) exits drawn ((tt, tt), tt)
          (draw_at-IsStep (clamp s.mouse.x w) (clamp s.mouse.y h) s.mouse.left pressed p
            (clamp-lt s.mouse.x w a) (clamp-lt s.mouse.y h b)))
        (tt, p)

  on_interrupt-IsStep :
      (byte : ℕ) (s : Mouse)
      → 1 ≤ w
      → 1 ≤ h
      → IsPoint s.draw_last
      → IsStep (on_interrupt (some (w, h)) byte s)
  unfolding on_interrupt complete
  on_interrupt-IsStep byte s a b p =
      let stored : Mouse = record s {
        packet = set s.packet s.packet_index byte;
        packet_index = s.packet_index + 1;
      } in
      if-IsStep ((s.packet_index == 0) && not (bit 3 byte)) ([], s) _ (tt, p)
        (if-IsStep (s.packet_index + 1 == 3) (complete (some (w, h)) stored) ([], stored)
          (handle_draw_mode-IsStep _ a b p) (tt, p))

  happens-IsStep :
      (e : Event) (s : Mouse)
      → 1 ≤ w
      → 1 ≤ h
      → IsPoint s.draw_last
      → IsStep (happens (some (w, h)) e s)
  unfolding happens
  happens-IsStep (arrives byte) s a b p = on_interrupt-IsStep byte s a b p
  happens-IsStep enters s a b p = (tt, tt)
  happens-IsStep exits s a b p = (tt, tt)

-- Whatever bytes the mouse sends, and whenever the shell turns the drawing mode on or off, every line
-- and every pixel that is drawn lies on the screen, whose sides are at least one pixel long; and so
-- does the point that the next line starts from.
pub draw_all-AllOnScreen :
    (w h : ℕ) (es : List Event) (s : Mouse)
    → 1 ≤ w
    → 1 ≤ h
    → IsPoint w h s.draw_last
    → AllOnScreen w h (draw_all (some (w, h)) es s).0
      × IsPoint w h (draw_all (some (w, h)) es s).1.draw_last
unfolding draw_all
draw_all-AllOnScreen w h [] s a b p = (tt, p)
draw_all-AllOnScreen w h (e ∷ es) s a b p =
    let first = happens-IsStep w h e s a b p in
    let rest = draw_all-AllOnScreen w h es (happens (some (w, h)) e s).1 a b first.1 in
    (AllOnScreen-append w h (happens (some (w, h)) e s).0 _ first.0 rest.0, rest.1)
