-- ===== src/Console/Calls.antt =====
-- kernel/src/console.rs: its public operations, in any order.
use spikeling_os.Base.{
  suc, ◌≡◌, ◌+◌, ◌^◌, ◌<◌, length, subst, arith, ℕ, List, [], ◌∷◌, Option, none, some, Bool,
}
use spikeling_os.Console.{Font, Console, clear, draw_pixel, write_char, write_str, backspace}
use spikeling_os.Console.Draw.{draw_line, draw_rect}
use spikeling_os.Console.Safe.{
  IsFramed, IsFont, Holds, Holds-self, Holds-then, write_pixel-Holds, write_char-Holds,
  write_str-Holds, backspace-Holds, clear-Holds,
}
use spikeling_os.Console.Line.{draw_line-Holds, draw_rect-Holds}

pub data ConsoleCall : Type 0 where
  char_call : ℕ → ConsoleCall
  text_call : List ℕ → ConsoleCall
  backspace_call : ConsoleCall
  clear_call : ConsoleCall
  pixel_call : ℕ → ℕ → Bool → ConsoleCall
  line_call : ℕ → ℕ → ℕ → ℕ → ConsoleCall
  rect_call : ℕ → ℕ → ℕ → ℕ → Bool → ConsoleCall

module _ (font : Font) where
  unfoldable pub run_one : ConsoleCall → Console → Option Console
  run_one (char_call ch) c = write_char font ch c
  run_one (text_call s) c = write_str font s c
  run_one backspace_call c = backspace font c
  run_one clear_call c = some (clear c)
  run_one (pixel_call x y on) c = draw_pixel x y on c
  run_one (line_call x0 y0 x1 y1) c = draw_line x0 y0 x1 y1 c
  run_one (rect_call x y width height filled) c = draw_rect x y width height filled c

  unfoldable pub run_all : List ConsoleCall → Console → Option Console
  run_all [] c = some c
  run_all (call ∷ calls) c = elim (run_one call c) [ none ↦ none | some c' ↦ run_all calls c' ]

-- The calls that the theorem covers: what is drawn has coordinates and sides below 2 ^ 32.
abbrev pub IsSmall : ConsoleCall → Type 0
IsSmall (pixel_call x y on) = (x < 2 ^ 32) × (y < 2 ^ 32)
IsSmall (line_call x0 y0 x1 y1) = (x0 < 2 ^ 32) × (y0 < 2 ^ 32) × (x1 < 2 ^ 32) × (y1 < 2 ^ 32)
IsSmall (rect_call x y width height filled) =
    (x < 2 ^ 32) × (y < 2 ^ 32) × (width < 2 ^ 32) × (height < 2 ^ 32)
IsSmall _ = Unit {0}

abbrev pub AreSmall : List ConsoleCall → Type 0
AreSmall [] = Unit {0}
AreSmall (call ∷ calls) = IsSmall call × AreSmall calls

-- How many characters the calls write, a clear of the screen counting as one.
abbrev pub cost : ConsoleCall → ℕ
cost (char_call ch) = 1
cost (text_call s) = length s
cost clear_call = 1
cost _ = 0

abbrev pub total_cost : List ConsoleCall → ℕ
total_cost [] = 0
total_cost (call ∷ calls) = cost call + total_cost calls

counted : {m n : ℕ} (c : Console) → m ≡ n → IsFramed (2 ^ 21) m c → IsFramed (2 ^ 21) n c
counted c e f = subst (λ k. IsFramed (2 ^ 21) k c) e f

module _ (font : Font) (is_font : IsFont font) where
  run_one-Holds :
      (n : ℕ) (call : ConsoleCall) (c : Console)
      → IsSmall call
      → IsFramed (2 ^ 21) (cost call + n) c
      → Holds (2 ^ 21) n c (run_one font call c)
  unfolding run_one
  run_one-Holds n (char_call ch) c small f =
      write_char-Holds font is_font n ch c (counted {m = 1 + n} {n = suc n} c (omega arith) f)
  run_one-Holds n (text_call s) c small f = write_str-Holds font is_font n s c f
  run_one-Holds n backspace_call c small f =
      backspace-Holds font is_font n c (counted {m = 0 + n} {n = n} c (omega arith) f)
  run_one-Holds n clear_call c small f =
      clear-Holds font is_font n c (counted {m = 1 + n} {n = suc n} c (omega arith) f)
  run_one-Holds n (pixel_call x y on) c (hx, hy) f =
      write_pixel-Holds (2 ^ 21) n x y _ c (omega arith) (omega arith)
        (counted {m = 0 + n} {n = n} c (omega arith) f)
  run_one-Holds n (line_call x0 y0 x1 y1) c (a, b, d, e) f =
      draw_line-Holds (2 ^ 21) n x0 y0 x1 y1 c (omega arith) (omega arith) (omega arith)
        (omega arith) (counted {m = 0 + n} {n = n} c (omega arith) f)
  run_one-Holds n (rect_call x y width height filled) c (a, b, d, e) f =
      draw_rect-Holds (2 ^ 21) n x y width height filled c a b d e
        (counted {m = 0 + n} {n = n} c (omega arith) f)

  -- Let a pixel have room for the bytes that its format writes, at most sixteen, the lines and sides of
  -- the screen be below 2 ^ 20, the cursor left of column 2 ^ 21 and so high that as many line feeds as
  -- there are characters to write, a clear of the screen counting as one, and `n` more keep it above
  -- row 2 ^ 37, and the glyphs of the font be of at most 2 ^ 16 rows and columns. Then, whatever text
  -- is written, erased or cleared and whatever pixels, lines and rectangles are drawn, with
  -- coordinates and sides below 2 ^ 32, in any order, every loop ends, the last of draw_line() within
  -- one round for each step in either direction, no index is out of the framebuffer, the framebuffer
  -- keeps its length and its layout, and the cursor is within those bounds for `n` line feeds.
  pub run_all-Holds :
      (n : ℕ) (calls : List ConsoleCall) (c : Console)
      → AreSmall calls
      → IsFramed (2 ^ 21) (total_cost calls + n) c
      → Holds (2 ^ 21) n c (run_all font calls c)
  unfolding run_all
  run_all-Holds n [] c small f =
      Holds-self (2 ^ 21) n c (counted {m = 0 + n} {n = n} c (omega arith) f)
  run_all-Holds n (call ∷ calls) c small f =
      Holds-then (2 ^ 21) (total_cost calls + n) (2 ^ 21) n c (run_one font call c)
        (run_all font calls)
        (run_one-Holds (total_cost calls + n) call c small.0 (
          counted {m = (cost call + total_cost calls) + n} {n = cost call + (total_cost calls + n)}
            c (omega arith) f))
        (λ c' f'. run_all-Holds n calls c' small.1 f')
