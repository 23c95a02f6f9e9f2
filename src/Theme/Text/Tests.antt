-- ===== src/Theme/Text/Tests.antt =====
-- Texts drawn with a small font.
use nullxesos.Prelude.{ℕ, ◌≡◌, refl, Option, some, List, [], ◌∷◌, ◌++◌, arith, length, replicate}
use nullxesos.Prelude.Int.{ℤ, pos, negsuc, add_i32, sub_i32}
use nullxesos.Theme.{text_primary}
use nullxesos.Theme.Text.{
  FontVariant, regular, Glyph, Extent, Canvas, draw_text, measure_text, draw_chars, draw_glyph,
  get_or_rasterize, draw_rows, draw_row, outside, draw_cols, draw_dot, cover_pixel,
}
use nullxesos.Shm.Pixels.{put_pixel}
use nullxesos.Theme.Text.Bounds.{IsBitmap}
use nullxesos.Theme.Text.Cached.{IsCoherent, fresh_chars, fresh_width}
use nullxesos.Theme.Text.Drawing.{draw_text_lem}

-- Each character is a block of 2 by 2 pixels above the baseline, and takes three.
abbrev pub blocks : FontVariant → ℕ → ℕ → Glyph
blocks v ch px = record {
  width = 2;
  height = 2;
  xmin = pos 0;
  ymin = pos 0;
  advance = pos 3;
  bitmap = 255 ∷ 128 ∷ 0 ∷ 255 ∷ [];
}

pub blocks-whole : (v : FontVariant) (ch px : ℕ) → IsBitmap (blocks v ch px)
blocks-whole v ch px = omega arith

abbrev pub small : Extent
small = record { stride = 16; buf_w = 4; buf_h = 2 }

abbrev pub canvas : Canvas
canvas = record { pixels = replicate 32 0; cache = [] }

-- Two characters, the first of which begins left of the buffer.
abbrev drawn_pixels : Option (Canvas × ℤ) → List ℕ
drawn_pixels (some (c, w)) = c.pixels
drawn_pixels _ = []

draw_two :
    drawn_pixels
      (draw_text blocks small canvas (negsuc 0) (pos 1) (97 ∷ 98 ∷ []) 13 text_primary regular)
    ≡ 232 ∷ 232 ∷ 232 ∷ 255 ∷ (replicate 8 0 ++ (232 ∷ 232 ∷ 232 ∷ 255 ∷ replicate 16 0))
unfolding draw_text draw_chars draw_glyph get_or_rasterize draw_rows draw_row outside draw_cols
    draw_dot cover_pixel put_pixel add_i32 sub_i32
draw_two = refl

draw_text_lem_example :
    (after : Canvas) × (draw_text blocks small canvas
        (negsuc 0)
        (pos 1)
        (97 ∷ 98 ∷ [])
        13
        text_primary
        regular
      ≡ some (after, (measure_text blocks canvas (97 ∷ 98 ∷ []) 13 regular).1))
    × (length after.pixels ≡ 32)
    × (fresh_chars blocks small text_primary regular 13
          (pos 1)
          (replicate 32 0)
          (negsuc 0)
          (97 ∷ 98 ∷ [])
        ≡ some (after.pixels, fresh_width blocks (negsuc 0) (97 ∷ 98 ∷ []) 13 regular))
    × IsCoherent blocks after.cache
draw_text_lem_example =
    draw_text_lem blocks blocks-whole small canvas (negsuc 0) (pos 1) (97 ∷ 98 ∷ []) 13 text_primary
      regular tt (omega arith, omega arith)
