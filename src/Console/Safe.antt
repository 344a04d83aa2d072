-- ===== src/Console/Safe.antt =====
-- kernel/src/console.rs: text and drawing never index the framebuffer out of range, and every loop ends.
use native.Mathlib.Nat.{mul-le-mul_left}
use spikeling_os.Base.{
  suc, ◌^◌, ℕ, ◌+◌, ◌-◌, ◌*◌, ◌≤◌, ◌<◌, ◌≡◌, refl, sym, ◌∙◌, subst, ltb, leb, ◌==◌, List, [], ◌∷◌,
  Option, none, some, false, if◌then◌else◌, arith, length, set, length-set, length-replicate,
  Option-cases, inl, inr,
}
use spikeling_os.Base.Branch.{if-either}
use spikeling_os.Console.{
  usize, Font, PixelFormat, rgb, bgr, u8, other_format, Console, store_byte, then_store_byte,
  store_pixel, write_pixel, clear, carriage_return, newline, draw_row, draw_rows,
  draw_rendered_char, get_char_raster, advance, make_room, write_char, write_str, backspace,
  char_raster_height, border_padding,
}

-- How many bytes of a pixel are written.
abbrev pub needed : PixelFormat → ℕ
needed rgb = 3
needed bgr = 3
needed u8 = 1
needed other_format = 0

-- A screen within the bounds for which the code's sums of usize do not wrap: a pixel has room for the bytes
-- that its format writes and takes at most sixteen, a line and the sides are below 2 ^ 20, the
-- cursor is left of `limit`, and `n` more lines would leave it above 2 ^ 37.
pub record IsFramed (limit n : ℕ) (c : Console) : Type 0 where
  pub room : needed c.info.pixel_format ≤ c.info.bytes_per_pixel
  pub few : c.info.bytes_per_pixel ≤ 16
  pub stride_lt : c.info.stride < 2 ^ 20
  pub width_lt : c.info.width < 2 ^ 20
  pub height_lt : c.info.height < 2 ^ 20
  pub limit_le : limit ≤ 2 ^ 22
  pub left : c.x_pos < limit
  pub above : c.y_pos + 18 * n < 2 ^ 37

-- It succeeds, and the framebuffer keeps its length, its layout and its bounds.
pub record Holds (limit n : ℕ) (c : Console) (o : Option Console) : Type 0 where
  pub result : Console
  pub done : o ≡ some result
  pub same_length : length result.framebuffer ≡ length c.framebuffer
  pub same_info : result.info ≡ c.info
  pub framed : IsFramed limit n result

-- A cursor elsewhere on the same screen.
moved :
    (limit limit' n n' : ℕ) (c c' : Console)
    → IsFramed limit n c
    → c'.info ≡ c.info
    → limit' ≤ 2 ^ 22
    → c'.x_pos < limit'
    → c'.y_pos + 18 * n' < 2 ^ 37
    → IsFramed limit' n' c'
moved limit limit' n n' c c' f i le x y = record {
  room = subst (λ i. needed i.pixel_format ≤ i.bytes_per_pixel) (sym i) f.room;
  few = subst (λ i. i.bytes_per_pixel ≤ 16) (sym i) f.few;
  stride_lt = subst (λ i. i.stride < 2 ^ 20) (sym i) f.stride_lt;
  width_lt = subst (λ i. i.width < 2 ^ 20) (sym i) f.width_lt;
  height_lt = subst (λ i. i.height < 2 ^ 20) (sym i) f.height_lt;
  limit_le = le;
  left = x;
  above = y;
}

module _ (limit n : ℕ) where
  pub Holds-self : (c : Console) → IsFramed limit n c → Holds limit n c (some c)
  Holds-self c f = record {
    result = c;
    done = refl;
    same_length = refl;
    same_info = refl;
    framed = f;
  }

  Holds-after :
      (c c' : Console) (o : Option Console)
      → length c'.framebuffer ≡ length c.framebuffer
      → c'.info ≡ c.info
      → Holds limit n c' o
      → Holds limit n c o
  Holds-after c c' o len i h = record {
    result = h.result;
    done = h.done;
    same_length = h.same_length ∙ len;
    same_info = h.same_info ∙ i;
    framed = h.framed;
  }

-- One step, and another on what it gives.
pub Holds-then :
    (limit n limit' n' : ℕ) (c : Console) (o : Option Console) (f : Console → Option Console)
    → Holds limit n c o
    → ((c' : Console) → IsFramed limit n c' → Holds limit' n' c' (f c'))
    → Holds limit' n' c (elim o [ none ↦ none | some c' ↦ f c' ])
Holds-then limit n limit' n' c o f h k =
    let more = k h.result h.framed in
    record {
      result = more.result;
      done = rw h.done more.done;
      same_length = more.same_length ∙ h.same_length;
      same_info = more.same_info ∙ h.same_info;
      framed = more.framed;
    }

module _ (limit n : ℕ) where
  store_byte-Holds :
      (i v : ℕ) (c : Console)
      → i < length c.framebuffer
      → IsFramed limit n c
      → Holds limit n c (store_byte i v c)
  store_byte-Holds i v c h f = record {
    result = record c { framebuffer = set c.framebuffer i v };
    done = ground arith;
    same_length = length-set c.framebuffer i v;
    same_info = refl;
    framed = moved limit limit n n c _ f refl f.limit_le f.left f.above;
  }

  then_store_byte-Holds :
      (i v : ℕ) (c : Console) (o : Option Console)
      → i < length c.framebuffer
      → Holds limit n c o
      → Holds limit n c (then_store_byte i v o)
  then_store_byte-Holds i v c o lt h =
      let more = store_byte-Holds i v h.result (omega (arith, h.same_length)) h.framed in
      record {
        result = more.result;
        done = rw h.done more.done;
        same_length = more.same_length ∙ h.same_length;
        same_info = more.same_info ∙ h.same_info;
        framed = more.framed;
      }

  store_pixel-Holds :
      (format : PixelFormat) (at v : ℕ) (c : Console)
      → at + needed format ≤ length c.framebuffer
      → IsFramed limit n c
      → Holds limit n c (store_pixel format at v c)
  store_pixel-Holds rgb at v c h f =
      then_store_byte-Holds (at + 2) v c _ (omega arith) (
        then_store_byte-Holds (at + 1) v c _ (omega arith)
          (store_byte-Holds at v c (omega arith) f))
  store_pixel-Holds bgr at v c h f =
      then_store_byte-Holds (at + 2) v c _ (omega arith) (
        then_store_byte-Holds (at + 1) v c _ (omega arith)
          (store_byte-Holds at v c (omega arith) f))
  store_pixel-Holds u8 at v c h f = store_byte-Holds at v c (omega arith) f
  store_pixel-Holds other_format at v c h f = Holds-self limit n c f

  -- The offset of a pixel does not wrap.
  offset_lt :
      (x y stride bpp : ℕ)
      → x < 2 ^ 38
      → y < 2 ^ 38
      → stride < 2 ^ 20
      → bpp ≤ 16
      → usize (usize (usize (usize (y * stride) + x) * bpp) + bpp)
        ≡ usize (usize (usize (y * stride) + x) * bpp) + bpp
  offset_lt x y stride bpp hx hy hs hb =
      let q = usize (usize (y * stride) + x) in
      let line : y * stride ≤ y * 2 ^ 20 = mul-le-mul_left y (omega arith) in
      let below : q < 2 ^ 59 = omega (arith, line) in
      let scaled : q * bpp ≤ q * 16 = mul-le-mul_left q hb in omega (arith, scaled, below)

  pub write_pixel-Holds :
      (x y v : ℕ) (c : Console)
      → x < 2 ^ 38
      → y < 2 ^ 38
      → IsFramed limit n c
      → Holds limit n c (write_pixel x y v c)
  unfolding write_pixel
  write_pixel-Holds x y v c hx hy f =
      let bpp = c.info.bytes_per_pixel in
      let at = usize (usize (usize (y * c.info.stride) + x) * bpp) in
      if-either (Holds limit n c) (ltb (length c.framebuffer) (usize (at + bpp)))
        (λ e. Holds-self limit n c f)
        (λ e.
          store_pixel-Holds c.info.pixel_format at v c
            (fits at (offset_lt x y c.info.stride bpp hx hy f.stride_lt f.few) e) f)
    where
      fits :
          (at : ℕ)
          → usize (at + c.info.bytes_per_pixel) ≡ at + c.info.bytes_per_pixel
          → ltb (length c.framebuffer) (usize (at + c.info.bytes_per_pixel)) ≡ false
          → at + needed c.info.pixel_format ≤ length c.framebuffer
      fits at whole e =
          let le : usize (at + c.info.bytes_per_pixel) ≤ length c.framebuffer = ground arith in
          omega (arith, whole, le, f.room)

  draw_row-Holds :
      (x y : ℕ) (vs : List ℕ) (c : Console)
      → x + length vs ≤ 2 ^ 17
      → y < 2 ^ 17
      → IsFramed limit n c
      → Holds limit n c (draw_row x y vs c)
  unfolding draw_row
  draw_row-Holds x y [] c hx hy f = Holds-self limit n c f
  draw_row-Holds x y (v ∷ vs) c hx hy f =
      Holds-then limit n limit n c _ (draw_row (x + 1) y vs)
        (write_pixel-Holds (usize (c.x_pos + x)) (usize (c.y_pos + y)) v c
          (omega (arith, f.left, f.limit_le)) (omega (arith, f.above)) f)
        (λ c' f'. draw_row-Holds (x + 1) y vs c' (omega arith) hy f')

-- Glyphs of at most 65536 rows and columns, as a font of 16 pixels' height has.
abbrev pub AreShort : List (List ℕ) → Type 0
AreShort [] = Unit {0}
AreShort (row ∷ rows) = (length row ≤ 2 ^ 16) × AreShort rows

pub record IsFont (font : Font) : Type 0 where
  pub narrow : font.raster_width < 2 ^ 16
  pub low :
      (ch : ℕ) (raster : List (List ℕ)) → font.get_raster ch ≡ some raster → length raster ≤ 2 ^ 16
  pub short : (ch : ℕ) (raster : List (List ℕ)) → font.get_raster ch ≡ some raster → AreShort raster

pub draw_rows-Holds :
    (limit n y : ℕ) (rows : List (List ℕ)) (c : Console)
    → y + length rows ≤ 2 ^ 16
    → AreShort rows
    → IsFramed limit n c
    → Holds limit n c (draw_rows y rows c)
unfolding draw_rows
draw_rows-Holds limit n y [] c hy short f = Holds-self limit n c f
draw_rows-Holds limit n y (row ∷ rows) c hy short f =
    Holds-then limit n limit n c _ (draw_rows (y + 1) rows)
      (draw_row-Holds limit n 0 y row c (omega (arith, short.0)) (omega arith) f)
      (λ c' f'. draw_rows-Holds limit n (y + 1) rows c' (omega arith) short.1 f')

module _ (font : Font) (is_font : IsFont font) where
  -- There is room for the character: the cursor is well within the screen.
  make_room-Alike :
      (c : Console)
      → (length (make_room font c).framebuffer ≡ length c.framebuffer)
        × ((make_room font c).info ≡ c.info)
  unfolding make_room
  make_room-Alike c =
      let P : Console → Type 0 =
        λ c'. (length c'.framebuffer ≡ length c.framebuffer) × (c'.info ≡ c.info) in
      let c' = if leb c.info.width (usize (c.x_pos + font.raster_width)) then newline c else c in
      let (n, i) =
        if-either P (leb c.info.width (usize (c.x_pos + font.raster_width))) {x = newline c} {y = c}
          (λ e. (refl, refl)) (λ e. (refl, refl)) in
      if-either P (leb c'.info.height (usize (c'.y_pos + (char_raster_height + border_padding))))
        (λ e. (length-replicate (length c'.framebuffer) 0 ∙ n, i)) (λ e. (n, i))

  make_room-IsFramed :
      (n : ℕ) (c : Console)
      → IsFramed (2 ^ 21) (suc n) c
      → IsFramed (2 ^ 20 + 5) n (make_room font c)
  unfolding make_room
  make_room-IsFramed n c f =
      let wide = leb c.info.width (usize (c.x_pos + font.raster_width)) in
      let c' = if wide then newline c else c in
      let framed : IsFramed (2 ^ 20 + 5) n c' =
        if-either (IsFramed (2 ^ 20 + 5) n) wide {x = newline c} {y = c}
          (λ e.
            moved (2 ^ 21) (2 ^ 20 + 5) (suc n) n c (newline c) f refl (omega arith) (omega arith)
              (omega (arith, f.above)))
          (λ e.
            let fits : usize (c.x_pos + font.raster_width) < c.info.width = ground arith in
            moved (2 ^ 21) (2 ^ 20 + 5) (suc n) n c c f refl (omega arith)
              (omega (arith, fits, f.left, is_font.narrow, f.width_lt)) (omega (arith, f.above))) in
      if-either (IsFramed (2 ^ 20 + 5) n)
        (leb c'.info.height (usize (c'.y_pos + (char_raster_height + border_padding))))
        (λ e.
          moved (2 ^ 20 + 5) (2 ^ 20 + 5) n n c' (clear c') framed refl (omega arith) (omega arith)
            (omega (arith, f.above)))
        (λ e. framed)

  get_char_raster-some :
      (ch : ℕ)
      → (raster : List (List ℕ)) × (get_char_raster font ch ≡ some raster)
        × (length raster ≤ 2 ^ 16)
        × AreShort raster
  unfolding get_char_raster
  get_char_raster-some ch = elim (Option-cases (font.get_raster ch)) [
    | inl n ↦ (
      font.backup,
      rw (get_char_raster, n) font.has_backup,
      is_font.low 63 font.backup font.has_backup,
      is_font.short 63 font.backup font.has_backup,
    )
    | inr (raster, e) ↦
        (raster, rw (get_char_raster, e) refl, is_font.low ch raster e, is_font.short ch raster e)
  ]

  advance-Holds :
      (n : ℕ) (c : Console) (o : Option Console)
      → Holds (2 ^ 20 + 5) n c o
      → Holds (2 ^ 21) n c (advance font o)
  advance-Holds n c o h = record {
    result = record h.result { x_pos = usize (h.result.x_pos + (font.raster_width + 0)) };
    done = rw h.done refl;
    same_length = h.same_length;
    same_info = h.same_info;
    framed =
        moved (2 ^ 20 + 5) (2 ^ 21) n n h.result _ h.framed refl (omega arith)
          (omega (arith, h.framed.left, is_font.narrow)) h.framed.above;
  }

  -- A cursor that has moved on the same screen.
  placed :
      (n n' : ℕ) (c c' : Console)
      → IsFramed (2 ^ 21) n c
      → c'.info ≡ c.info
      → length c'.framebuffer ≡ length c.framebuffer
      → c'.x_pos < 2 ^ 21
      → c'.y_pos + 18 * n' < 2 ^ 37
      → Holds (2 ^ 21) n' c (some c')
  placed n n' c c' f i len x y =
      Holds-after (2 ^ 21) n' c c' (some c') len i
        (Holds-self (2 ^ 21) n' c' (moved (2 ^ 21) (2 ^ 21) n n' c c' f i (omega arith) x y))

  pub write_char-Holds :
      (n ch : ℕ) (c : Console)
      → IsFramed (2 ^ 21) (suc n) c
      → Holds (2 ^ 21) n c (write_char font ch c)
  unfolding write_char
  write_char-Holds n ch c f =
      let (raster, e, low, short) = get_char_raster-some ch in
      let ready = make_room font c in
      let (len, info) = make_room-Alike c in
      let drawn = Holds-after (2 ^ 20 + 5) n c ready (draw_rendered_char raster ready) len info (
        draw_rows-Holds (2 ^ 20 + 5) n 0 raster ready (omega (arith, low)) short
          (make_room-IsFramed n c f)) in
      let P = Holds (2 ^ 21) n c in
      if-either P (ch == 10)
        (λ t. placed (suc n) n c (newline c) f refl refl (omega arith) (omega (arith, f.above)))
        (λ t.
          if-either P (ch == 13)
            (λ r.
              placed (suc n) n c (carriage_return c) f refl refl (omega arith)
                (omega (arith, f.above)))
            (λ r.
              subst
                (λ o. P (elim o as (λ o. Option Console) [
                  | none ↦ none
                  | some raster ↦ advance font (draw_rendered_char raster ready)
                ]))
                (sym e) (advance-Holds n c (draw_rendered_char raster ready) drawn)))

  pub write_str-Holds :
      (n : ℕ) (s : List ℕ) (c : Console)
      → IsFramed (2 ^ 21) (length s + n) c
      → Holds (2 ^ 21) n c (write_str font s c)
  unfolding write_str
  write_str-Holds n [] c f = placed (0 + n) n c c f refl refl f.left (omega (arith, f.above))
  write_str-Holds n (ch ∷ s) c f =
      Holds-then (2 ^ 21) (length s + n) (2 ^ 21) n c (write_char font ch c) (write_str font s)
        (write_char-Holds (length s + n) ch c (
          subst (λ k. IsFramed (2 ^ 21) k c) {x = suc (length s) + n} {y = suc (length s + n)}
            (omega arith) f))
        (λ c' f'. write_str-Holds n s c' f')

  pub backspace-Holds :
      (n : ℕ) (c : Console) → IsFramed (2 ^ 21) n c → Holds (2 ^ 21) n c (backspace font c)
  unfolding backspace
  backspace-Holds n c f =
      let back : Console = record c { x_pos = c.x_pos - font.raster_width } in
      let (raster, e, low, short) = get_char_raster-some 32 in
      let behind : IsFramed (2 ^ 21) n back =
        moved (2 ^ 21) (2 ^ 21) n n c back f refl (omega arith) (omega (arith, f.left)) f.above in
      if-either (Holds (2 ^ 21) n c) (leb (border_padding + font.raster_width) c.x_pos)
        (λ t.
          subst
            (λ o. Holds (2 ^ 21) n c (elim o as (λ o. Option Console) [
              | none ↦ none
              | some raster ↦ draw_rendered_char raster back
            ]))
            (sym e)
            (Holds-after (2 ^ 21) n c back (draw_rendered_char raster back) refl refl
              (draw_rows-Holds (2 ^ 21) n 0 raster back (omega (arith, low)) short behind)))
        (λ t. Holds-self (2 ^ 21) n c f)

  pub clear-Holds :
      (n : ℕ) (c : Console) → IsFramed (2 ^ 21) (suc n) c → Holds (2 ^ 21) n c (some (clear c))
  clear-Holds n c f =
      placed (suc n) n c (clear c) f refl (length-replicate (length c.framebuffer) 0) (omega arith)
        (omega (arith, f.above))
