-- ===== src/Frame/Panel.antt =====
-- The panel of the compositor: crates/frame/src/panel/mod.rs. The search of the fonts is not modelled:
-- `text` is the renderer's cache, if there are fonts.
pub mod Pixels
pub mod Modules
pub mod Mirror
pub mod Shapes
pub mod Whole
pub mod Label
pub mod Tests
use nullxesos.Prelude.{
  ℕ, suc, ◌+◌, ◌*◌, ◌/◌, ◌%◌, ◌^◌, Bool, true, false, ◌&&◌, Option, none, some, List, [], ◌∷◌,
  replicate, ◌==◌, if◌then◌else◌, ◌>>=◌,
}
use nullxesos.Prelude.Int.{ℤ, pos, ◌+ℤ◌, ◌-ℤ◌}
use nullxesos.Shm.Pixels.{Color, as_i32}
use nullxesos.Theme.{surface_1, surface_2, divider, accent}
use nullxesos.Theme.Text.{FontVariant, Glyph, GlyphCache, Extent, Canvas}
use nullxesos.Paint.{half}
use nullxesos.Frame.Panel.Pixels.{clear, fill_rect, wlcommon_hline}
use nullxesos.Frame.Panel.Modules.{ModuleSnapshot, Time, workspaces, indicators}

abbrev pub panel_height : ℕ
panel_height = 48

pub record PanelBitmap : Type 0 where
  pub width : ℕ
  pub height : ℕ
  pub pixels : List ℕ
  pub dirty : Bool
  pub generation : ℕ

unfoldable pub new_bitmap : ℕ → ℕ → PanelBitmap
new_bitmap width height = record {
  width = width;
  height = height;
  pixels = replicate (width * height * 4) 0;
  dirty = true;
  generation = 0;
}

abbrev pub wrapping_next : ℕ → ℕ
wrapping_next generation = (generation + 1) % 2 ^ 64

unfoldable pub resize_bitmap : PanelBitmap → ℕ → ℕ → PanelBitmap
resize_bitmap bitmap width height =
    if (bitmap.width == width) && (bitmap.height == height) then bitmap else record {
      width = width;
      height = height;
      pixels = replicate (width * height * 4) 0;
      dirty = true;
      generation = wrapping_next bitmap.generation;
    }

abbrev pub stride : PanelBitmap → ℕ
stride bitmap = bitmap.width * 4

pub record PanelOverlay : Type 0 where
  pub bitmap : PanelBitmap
  pub modules : ModuleSnapshot
  pub text : Option GlyphCache

abbrev pub new_overlay : ModuleSnapshot → Option GlyphCache → PanelOverlay
new_overlay modules text = record {
  bitmap = new_bitmap 1920 panel_height;
  modules = modules;
  text = text;
}

unfoldable pub resize : PanelOverlay → ℕ → PanelOverlay
resize panel output_width = record panel {
  bitmap = resize_bitmap panel.bitmap output_width panel_height;
}

-- The squares of the mark.
abbrev pub marks : List (ℤ × ℤ)
marks = (pos 18, pos 16) ∷ (pos 26, pos 16) ∷ (pos 18, pos 24) ∷ (pos 26, pos 24) ∷ []

unfoldable pub draw_mark : Extent → List (ℤ × ℤ) → List ℕ → Option (List ℕ)
draw_mark f [] pixels = some pixels
draw_mark f ((dx, dy) ∷ rest) pixels =
    fill_rect pixels f.stride f.buf_w f.buf_h dx dy 4 4 accent >>= λ next. draw_mark f rest next

-- Background, divider, launcher button, mark and dots.
unfoldable pub draw_shapes : Extent → ℕ → List ℕ → List ℕ → Option (List ℕ)
draw_shapes f active occupied pixels =
    wlcommon_hline (clear surface_1 pixels) f.stride f.buf_w f.buf_h (pos 0) (pos 0)
      (as_i32 f.buf_w) divider
    >>= λ lined.
        fill_rect lined f.stride f.buf_w f.buf_h (pos 0) (pos 0) 48 f.buf_h surface_2 >>= λ button.
        draw_mark f marks button >>= λ marked. workspaces f active occupied marked

module _ (rasterize : FontVariant → ℕ → ℕ → Glyph) where
  -- Without fonts there are no indicators.
  unfoldable pub draw_indicators :
      Extent
      → Time
      → ModuleSnapshot
      → List ℕ
      → Option GlyphCache
      → Option (List ℕ × Option GlyphCache)
  draw_indicators f now snap pixels none = some (pixels, none)
  draw_indicators f now snap pixels (some cache) =
      indicators rasterize f (half (as_i32 f.buf_h) +ℤ pos 5) now snap (as_i32 f.buf_w -ℤ pos 16)
        (record { pixels = pixels; cache = cache })
      >>= λ canvas. some (canvas.pixels, some canvas.cache)

  abbrev pub extent_of : PanelBitmap → Extent
  extent_of bitmap = record { stride = stride bitmap; buf_w = bitmap.width; buf_h = bitmap.height }

  -- `active` and `occupied` are what is asked of the workspaces.
  unfoldable pub render : PanelOverlay → ℕ → List ℕ → Time → Option PanelOverlay
  render panel active occupied now =
      let bitmap = panel.bitmap in
      let f = extent_of bitmap in
      draw_shapes f active occupied bitmap.pixels >>= λ shapes.
      draw_indicators f now panel.modules shapes panel.text >>= λ done. some (record panel {
        bitmap = record bitmap {
          pixels = done.0;
          dirty = false;
          generation = wrapping_next bitmap.generation;
        };
        text = done.1;
      })
