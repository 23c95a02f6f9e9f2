-- ===== src/Theme/Text.antt =====
-- The text renderer: crates/theme/src/text.rs. The rasterizer of the font files is a third-party
-- crate's. A text is the list of its characters by their numbers, sizes are whole pixels, as all
-- calls give them, and an `i32` wraps where it overflows, as in the release profile; the dev profile
-- panics there.
pub mod Bounds
pub mod Cached
pub mod Drawing
pub mod Tests
use nullxesos.Prelude.{
  ℕ, zero, suc, ◌+◌, ◌-◌, ◌*◌, ◌/◌, ◌%◌, Bool, true, false, not, ◌&&◌, ◌||◌, Option, none, some,
  List, [], ◌∷◌, length, ltb, ◌==◌, if◌then◌else◌, get_elem?,
}
use nullxesos.Prelude.Int.{ℤ, pos, add_i32, sub_i32, pos_part, ltb_ℤ}
use nullxesos.Shm.Pixels.{Color, as_i32, byte_or_0, put_pixel}

pub data FontVariant : Type 0 where
  regular medium mono : FontVariant

-- `variant as u8`
abbrev pub index : FontVariant → ℕ
index regular = 0
index medium = 1
index mono = 2

-- `advance` is the advance width `as i32`.
pub record Glyph : Type 0 where
  pub width : ℕ
  pub height : ℕ
  pub xmin : ℤ
  pub ymin : ℤ
  pub advance : ℤ
  pub bitmap : List ℕ

pub record GlyphKey : Type 0 where
  pub ch : ℕ
  pub font_idx : ℕ
  pub half_pixels : ℕ

abbrev pub GlyphCache : Type 0
GlyphCache = List (GlyphKey × Glyph)

abbrev pub key_of : FontVariant → ℕ → ℕ → GlyphKey
key_of variant ch px = record { ch = ch; font_idx = index variant; half_pixels = px * 2 }

abbrev pub same_key : GlyphKey → GlyphKey → Bool
same_key k l = (k.ch == l.ch) && ((k.font_idx == l.font_idx) && (k.half_pixels == l.half_pixels))

abbrev pub lookup : GlyphCache → GlyphKey → Option Glyph
lookup [] k = none
lookup ((l, g) ∷ cache) k = if same_key l k then some g else lookup cache k

-- The buffer, by the arguments of its pixels.
pub record Extent : Type 0 where
  pub stride : ℕ
  pub buf_w : ℕ
  pub buf_h : ℕ

-- The pixels that are drawn on, with the cache of the renderer.
pub record Canvas : Type 0 where
  pub pixels : List ℕ
  pub cache : GlyphCache

-- `v < 0 || v >= bound as i32`
unfoldable pub outside : ℤ → ℕ → Bool
outside v bound = ltb_ℤ v (pos 0) || not (ltb_ℤ v (as_i32 bound))

-- One byte of the colour over one byte of the buffer.
abbrev pub cover : ℕ → ℕ → ℕ → ℕ
cover src_a old c = ((old * (255 - src_a) + c * src_a) / 255) % 256

unfoldable pub cover_pixel : Color → List ℕ → ℕ → ℕ → Option (List ℕ)
cover_pixel c pixels src_a idx =
    put_pixel pixels idx (cover src_a (byte_or_0 (get_elem? pixels idx)) c.b)
      (cover src_a (byte_or_0 (get_elem? pixels (idx + 1))) c.g)
      (cover src_a (byte_or_0 (get_elem? pixels (idx + 2))) c.r) 255

module _ (f : Extent) (c : Color) (g : Glyph) where
  -- The body of the loop over the columns; `none` is the panic of an index out of range.
  unfoldable pub draw_dot : List ℕ → ℕ → ℤ → ℕ → ℕ → Option (List ℕ)
  draw_dot pixels py glyph_left row col =
      let px_x = add_i32 glyph_left (pos col) in
      if outside px_x f.buf_w
      then some pixels
      else elim (get_elem? g.bitmap (row * g.width + col)) [
        | none ↦ none
        | some coverage ↦
            if coverage == 0
            then some pixels
            else cover_pixel c pixels coverage (py * f.stride + pos_part px_x * 4)
      ]

  -- `for col in col..col + n`
  unfoldable pub draw_cols : List ℕ → ℕ → ℤ → ℕ → ℕ → ℕ → Option (List ℕ)
  draw_cols pixels py glyph_left row col zero = some pixels
  draw_cols pixels py glyph_left row col (suc n) = elim (draw_dot pixels py glyph_left row col) [
    | none ↦ none
    | some drawn ↦ draw_cols drawn py glyph_left row (col + 1) n
  ]

  unfoldable pub draw_row : List ℕ → ℤ → ℤ → ℕ → Option (List ℕ)
  draw_row pixels glyph_top glyph_left row =
      let py = add_i32 glyph_top (pos row) in
      let drawn = draw_cols pixels (pos_part py) glyph_left row 0 g.width in
      if outside py f.buf_h then some pixels else drawn

  -- `for row in row..row + n`
  unfoldable pub draw_rows : List ℕ → ℤ → ℤ → ℕ → ℕ → Option (List ℕ)
  draw_rows pixels glyph_top glyph_left row zero = some pixels
  draw_rows pixels glyph_top glyph_left row (suc n) =
      elim (draw_row pixels glyph_top glyph_left row) [
        | none ↦ none
        | some drawn ↦ draw_rows drawn glyph_top glyph_left (row + 1) n
      ]

  -- One character, at the cursor and over the baseline `y`.
  unfoldable pub draw_glyph : List ℕ → ℤ → ℤ → Option (List ℕ)
  draw_glyph pixels y cursor_x =
      let glyph_top = sub_i32 (sub_i32 y g.ymin) (pos g.height) in
      let drawn = draw_rows pixels glyph_top (add_i32 cursor_x g.xmin) 0 g.height in
      if g.width == 0 then some pixels else drawn

module _ (rasterize : FontVariant → ℕ → ℕ → Glyph) where
  unfoldable pub get_or_rasterize : GlyphCache → FontVariant → ℕ → ℕ → GlyphCache × Glyph
  get_or_rasterize cache variant ch px =
      let k = key_of variant ch px in
      elim (lookup cache k) [
        | some g ↦ (cache, g)
        | none ↦ ((k, rasterize variant ch px) ∷ cache, rasterize variant ch px)
      ]

  -- The loop over the characters, with the cursor at its end.
  unfoldable pub draw_chars :
      Extent → Color → FontVariant → ℕ → ℤ → Canvas → ℤ → List ℕ → Option (Canvas × ℤ)
  draw_chars f c variant px y canvas cursor_x [] = some (canvas, cursor_x)
  draw_chars f c variant px y canvas cursor_x (ch ∷ chars) =
      let got = get_or_rasterize canvas.cache variant ch px in
      elim (draw_glyph f c got.1 canvas.pixels y cursor_x) [
        | none ↦ none
        | some drawn ↦
            draw_chars f c variant px y (record { pixels = drawn; cache = got.0 })
              (add_i32 cursor_x got.1.advance) chars
      ]

  unfoldable pub draw_text :
      Extent → Canvas → ℤ → ℤ → List ℕ → ℕ → Color → FontVariant → Option (Canvas × ℤ)
  draw_text f canvas x y text px c variant = elim (draw_chars f c variant px y canvas x text) [
    | none ↦ none
    | some (drawn, cursor_x) ↦ some (drawn, sub_i32 cursor_x x)
  ]

  unfoldable pub measure_from : GlyphCache → ℤ → List ℕ → ℕ → FontVariant → GlyphCache × ℤ
  measure_from cache w [] px variant = (cache, w)
  measure_from cache w (ch ∷ chars) px variant =
      let got = get_or_rasterize cache variant ch px in
      measure_from got.0 (add_i32 w got.1.advance) chars px variant

  abbrev pub measure_text : Canvas → List ℕ → ℕ → FontVariant → Canvas × ℤ
  measure_text canvas text px variant =
      let measured = measure_from canvas.cache (pos 0) text px variant in
      (record canvas { cache = measured.0 }, measured.1)
