-- ===== src/Console/Tests.antt =====
-- A screen of four by two pixels of three bytes, with a font of one pixel.
use spikeling_os.Base.{
  none, ◌≤◌, ◌-◌, ◌^◌, length, subst, ℕ, ◌≡◌, refl, List, [], ◌∷◌, ◌++◌, some, true, arith,
  replicate,
}
use spikeling_os.Console.{Font, bgr, Console, write_pixel}
use spikeling_os.Console.Draw.{line_from, draw_line}
use spikeling_os.Console.Safe.{IsFont, AreShort, Holds}
use spikeling_os.Console.Calls.{
  ConsoleCall, text_call, line_call, rect_call, run_all, run_all-Holds,
}

abbrev dot : Font
dot = record {
  get_raster = λ c. some ((255 ∷ []) ∷ []);
  raster_width = 1;
  backup = (255 ∷ []) ∷ [];
  has_backup = refl;
}

abbrev screen : Console
screen = record {
  framebuffer = replicate 24 0;
  info = record { width = 4; height = 2; stride = 4; bytes_per_pixel = 3; pixel_format = bgr };
  x_pos = 4;
  y_pos = 4;
}

abbrev white : List ℕ
white = 255 ∷ 255 ∷ 255 ∷ []

abbrev black : List ℕ
black = 0 ∷ 0 ∷ 0 ∷ []

-- From the upper left to the lower right.
line_pixels :
    draw_line 0 0 3 1 screen
    ≡ some (record screen {
      framebuffer = (white ++ white ++ black ++ black) ++ (black ++ black ++ white ++ white);
    })
unfolding draw_line line_from write_pixel
line_pixels = refl

-- The offset of this pixel, times four bytes, wraps past the test of the length, and the index panics.
wrapped_pixel :
    write_pixel
      (2 ^ 62 - 1)
      0
      255
      (record screen { info = record screen.info { bytes_per_pixel = 4 } })
    ≡ none
unfolding write_pixel
wrapped_pixel = refl

dot-IsFont : IsFont dot
dot-IsFont = record {
  narrow = omega arith;
  low = λ ch raster e.
      let same : (255 ∷ []) ∷ [] ≡ raster = cc in subst (λ r. length r ≤ 2 ^ 16) same (omega arith);
  short = λ ch raster e.
      let same : (255 ∷ []) ∷ [] ≡ raster = cc in subst AreShort same (omega arith, tt);
}

-- Two characters, a line and a rectangle that leave the screen.
abbrev calls : List ConsoleCall
calls = text_call (72 ∷ 10 ∷ []) ∷ line_call 9 0 0 7 ∷ rect_call 1 1 5 5 true ∷ []

run_all-Holds_example : Holds (2 ^ 21) 0 screen (run_all dot calls screen)
run_all-Holds_example =
    run_all-Holds dot dot-IsFont 0 calls screen
      (
        tt,
        (
          (omega arith, omega arith, omega arith, omega arith),
          ((omega arith, omega arith, omega arith, omega arith), tt),
        ),
      )
      (record {
        room = omega arith;
        few = omega arith;
        stride_lt = omega arith;
        width_lt = omega arith;
        height_lt = omega arith;
        limit_le = omega arith;
        left = omega arith;
        above = omega arith;
      })
