-- ===== src/Console.antt =====
-- kernel/src/console.rs: text and drawing on the framebuffer. The font, of the noto_sans_mono_bitmap crate, is
-- a parameter, and so are the framebuffer's length and layout. `none` is a panic of the code, on an index
-- out of range. An isize is a difference of two naturals.
pub mod Draw
pub mod Safe
pub mod Line
pub mod Calls
mod Tests
use spikeling_os.Base.{
  ◌≡◌, ℕ, zero, suc, ◌+◌, ◌-◌, ◌*◌, ◌%◌, ◌^◌, ltb, leb, ◌==◌, ◌&&◌, List, [], ◌∷◌, Option, none,
  some, Bool, true, false, if◌then◌else◌, length, set, replicate,
}

-- A usize of 64 bits, which wraps as in a release build; a debug build panics where it would.
abbrev pub usize : ℕ → ℕ
usize n = n % 2 ^ 64

pub record Font : Type 0 where
  -- The rows of a glyph, each a list of intensities.
  pub get_raster : ℕ → Option (List (List ℕ))
  pub raster_width : ℕ
  pub backup : List (List ℕ)
  -- "backup char must render"
  pub has_backup : get_raster 63 ≡ some backup

pub data PixelFormat : Type 0 where
  rgb bgr u8 other_format : PixelFormat

pub record FrameBufferInfo : Type 0 where
  pub width : ℕ
  pub height : ℕ
  pub stride : ℕ
  pub bytes_per_pixel : ℕ
  pub pixel_format : PixelFormat

pub record Console : Type 0 where
  pub framebuffer : List ℕ
  pub info : FrameBufferInfo
  pub x_pos : ℕ
  pub y_pos : ℕ

abbrev pub char_raster_height : ℕ
char_raster_height = 16

abbrev pub line_spacing : ℕ
line_spacing = 2

abbrev pub letter_spacing : ℕ
letter_spacing = 0

abbrev pub border_padding : ℕ
border_padding = 4

-- `framebuffer[i] = v`
abbrev pub store_byte : ℕ → ℕ → Console → Option Console
store_byte i v c =
    if ltb i (length c.framebuffer)
    then some (record c { framebuffer = set c.framebuffer i v })
    else none

abbrev pub then_store_byte : ℕ → ℕ → Option Console → Option Console
then_store_byte i v none = none
then_store_byte i v (some c) = store_byte i v c

-- The match on the pixel format.
abbrev pub store_pixel : PixelFormat → ℕ → ℕ → Console → Option Console
store_pixel rgb at v c = then_store_byte (at + 2) v (then_store_byte (at + 1) v (store_byte at v c))
store_pixel bgr at v c = then_store_byte (at + 2) v (then_store_byte (at + 1) v (store_byte at v c))
store_pixel u8 at v c = store_byte at v c
store_pixel other_format at v c = some c

unfoldable pub write_pixel : ℕ → ℕ → ℕ → Console → Option Console
write_pixel x y intensity c =
    let bpp = c.info.bytes_per_pixel in
    let pixel_offset = usize (usize (y * c.info.stride) + x) in
    let byte_offset = usize (pixel_offset * bpp) in
    if ltb (length c.framebuffer) (usize (byte_offset + bpp))
    then some c
    else store_pixel c.info.pixel_format byte_offset intensity c

abbrev pub draw_pixel : ℕ → ℕ → Bool → Console → Option Console
draw_pixel x y on c = write_pixel x y (if on then 255 else 0) c

abbrev pub clear : Console → Console
clear c = record c {
  x_pos = border_padding;
  y_pos = border_padding;
  framebuffer = replicate (length c.framebuffer) 0;
}

abbrev pub carriage_return : Console → Console
carriage_return c = record c { x_pos = border_padding }

abbrev pub newline : Console → Console
newline c =
    carriage_return (record c { y_pos = usize (c.y_pos + (char_raster_height + line_spacing)) })

-- The pixels of one row of a glyph, from column `x` on.
unfoldable pub draw_row : ℕ → ℕ → List ℕ → Console → Option Console
draw_row x y [] c = some c
draw_row x y (v ∷ vs) c = elim (write_pixel (usize (c.x_pos + x)) (usize (c.y_pos + y)) v c) [
  | none ↦ none
  | some c' ↦ draw_row (x + 1) y vs c'
]

unfoldable pub draw_rows : ℕ → List (List ℕ) → Console → Option Console
draw_rows y [] c = some c
draw_rows y (row ∷ rows) c = elim (draw_row 0 y row c) [
  | none ↦ none
  | some c' ↦ draw_rows (y + 1) rows c'
]

abbrev pub draw_rendered_char : List (List ℕ) → Console → Option Console
draw_rendered_char raster c = draw_rows 0 raster c

module _ (font : Font) where
  -- The glyph, or that of '?'.
  unfoldable pub get_char_raster : ℕ → Option (List (List ℕ))
  get_char_raster c = elim (font.get_raster c) [
    | none ↦ font.get_raster 63
    | some raster ↦ some raster
  ]

  abbrev pub advance : Option Console → Option Console
  advance none = none
  advance (some c) =
      some (record c { x_pos = usize (c.x_pos + (font.raster_width + letter_spacing)) })

  -- The cursor before a character is drawn: on a new line, or on a cleared screen, if it would not fit.
  unfoldable pub make_room : Console → Console
  make_room c =
      let c' = if leb c.info.width (usize (c.x_pos + font.raster_width)) then newline c else c in
      if leb c'.info.height (usize (c'.y_pos + (char_raster_height + border_padding)))
      then clear c'
      else c'

  unfoldable pub write_char : ℕ → Console → Option Console
  write_char ch c =
      if ch == 10
      then some (newline c)
      else if ch == 13
      then some (carriage_return c)
      else elim (get_char_raster ch) [
        | none ↦ none
        | some raster ↦ advance (draw_rendered_char raster (make_room c))
      ]

  unfoldable pub write_str : List ℕ → Console → Option Console
  write_str [] c = some c
  write_str (ch ∷ s) c = elim (write_char ch c) [ none ↦ none | some c' ↦ write_str s c' ]

  unfoldable pub backspace : Console → Option Console
  backspace c =
      let back : Console = record c { x_pos = c.x_pos - font.raster_width } in
      if leb (border_padding + font.raster_width) c.x_pos
      then elim (get_char_raster 32) [ none ↦ none | some raster ↦ draw_rendered_char raster back ]
      else some c
