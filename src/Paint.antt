-- ===== src/Paint.antt =====
-- A frame of a client as the calls that draw it, in their order: those of crates/wlcommon/src/shm.rs and
-- crates/theme/src/text.rs. A call that panics ends the program.
pub mod Safe
mod Tests
use nullxesos.Prelude.{ℕ, suc, ◌+◌, ◌/◌, Option, none, some, List, [], ◌∷◌}
use nullxesos.Prelude.Int.{ℤ, pos, negsuc, ◌-ℤ◌}
use nullxesos.Shm.Pixels.{Color, clear, fill_rect, hline, vline}
use nullxesos.Theme.Text.{FontVariant, Glyph, Extent, Canvas, draw_text, measure_text}

-- The arguments are those of the source. `centred cx` draws at `cx` less half the measured width.
pub data Call : Type 0 where
  clear_call : Color → Call
  rect : ℤ → ℤ → ℕ → ℕ → Color → Call
  horizontal : ℤ → ℤ → ℤ → Color → Call
  vertical : ℤ → ℤ → ℤ → Color → Call
  text_call : ℤ → ℤ → List ℕ → ℕ → Color → FontVariant → Call
  centred : ℤ → ℤ → List ℕ → ℕ → Color → FontVariant → Call

-- `/ 2` of an `i32` cuts off towards zero.
abbrev pub half : ℤ → ℤ
half (pos n) = pos (n / 2)
half (negsuc n) = pos 0 -ℤ pos (suc n / 2)

abbrev pub onto : Canvas → Option (List ℕ) → Option Canvas
onto canvas none = none
onto canvas (some pixels) = some (record canvas { pixels = pixels })

abbrev pub drawn : Option (Canvas × ℤ) → Option Canvas
drawn none = none
drawn (some (canvas, w)) = some canvas

module _ (rasterize : FontVariant → ℕ → ℕ → Glyph) (f : Extent) where
  unfoldable pub call : Call → Canvas → Option Canvas
  call (clear_call c) canvas = onto canvas (some (clear c canvas.pixels))
  call (rect x y w h c) canvas =
      onto canvas (fill_rect canvas.pixels f.stride f.buf_w f.buf_h x y w h c)
  call (horizontal y x0 x1 c) canvas =
      onto canvas (hline canvas.pixels f.stride f.buf_w f.buf_h y x0 x1 c)
  call (vertical x y0 y1 c) canvas =
      onto canvas (vline canvas.pixels f.stride f.buf_w f.buf_h x y0 y1 c)
  call (text_call x y text px c v) canvas = drawn (draw_text rasterize f canvas x y text px c v)
  call (centred cx y text px c v) canvas =
      let measured = measure_text rasterize canvas text px v in
      drawn (draw_text rasterize f measured.0 (cx -ℤ half measured.1) y text px c v)

  unfoldable pub call_all : List Call → Canvas → Option Canvas
  call_all [] canvas = some canvas
  call_all (k ∷ ks) canvas = elim (call k canvas) [ none ↦ none | some next ↦ call_all ks next ]
