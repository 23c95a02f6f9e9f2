-- ===== src/Frame/Panel/Whole.antt =====
-- The panel is drawn without a panic.
use nullxesos.Prelude.{
  ℕ, ◌*◌, ◌≡◌, refl, subst, sym, ◌∙◌, ap, false, Option, none, some, List, [], arith, length,
  length-replicate, ◌==◌, ◌&&◌, if_lem, ◌>>=◌,
}
use nullxesos.Prelude.Int.{ℤ, pos, ◌+ℤ◌, ◌-ℤ◌}
use nullxesos.Shm.Pixels.{Color, as_i32}
use nullxesos.Paint.{half}
use nullxesos.Theme.{text_secondary}
use nullxesos.Theme.Text.{FontVariant, regular, Glyph, GlyphCache, Extent, Canvas, measure_text}
use nullxesos.Theme.Text.Bounds.{Fits, IsBitmap}
use nullxesos.Theme.Text.Cached.{IsCoherent, measure_from_lem}
use nullxesos.Theme.Text.Drawing.{draw_text_lem}
use nullxesos.Frame.Panel.Modules.{
  ModuleSnapshot, Time, indicator, indicators, network_label, battery_label, volume_label,
  in_secondary, format_local_hhmm,
}
use nullxesos.Frame.Panel.{
  PanelBitmap, PanelOverlay, new_bitmap, resize_bitmap, new_overlay, resize, panel_height,
  draw_indicators, extent_of, render, wrapping_next,
}
use nullxesos.Frame.Panel.Shapes.{draw_shapes-Keeps}

module _ (rasterize : FontVariant → ℕ → ℕ → Glyph)
    (whole : (v : FontVariant) (ch px : ℕ) → IsBitmap (rasterize v ch px)) (f : Extent) (n : ℕ)
    (fits : Fits f n) (baseline : ℤ) where
  -- A canvas of the same length, with a coherent cache, beside a pen.
  abbrev KeepsAll : Option (Canvas × ℤ) → Type 0
  KeepsAll o =
      (c : Canvas) × (x : ℤ) × (o ≡ some (c, x))
      × (length c.pixels ≡ n)
      × IsCoherent rasterize c.cache

  >>=-KeepsAll :
      (o : Option (Canvas × ℤ)) (g : Canvas × ℤ → Option (Canvas × ℤ))
      → KeepsAll o
      → ((c : Canvas) (x : ℤ)
          → length c.pixels ≡ n
          → IsCoherent rasterize c.cache
          → KeepsAll (g (c, x)))
      → KeepsAll (o >>= g)
  >>=-KeepsAll o g (c, x, e, same, all) rest =
      let (c', x', e', same', all') = rest c x same all in
      (c', x', ap (λ q. q >>= g) e ∙ e', same', all')

  indicator-KeepsAll :
      (pen_x : ℤ) (label : Option (List ℕ × Color)) (canvas : Canvas)
      → length canvas.pixels ≡ n
      → IsCoherent rasterize canvas.cache
      → KeepsAll (indicator rasterize f baseline pen_x label canvas)
  unfolding indicator
  indicator-KeepsAll pen_x none canvas same all = (canvas, pen_x, refl, same, all)
  indicator-KeepsAll pen_x (some (label, color)) canvas same all =
      let measured : Canvas × ℤ = measure_text rasterize canvas label 13 regular in
      let (_, coherent) = measure_from_lem rasterize canvas.cache (pos 0) label 13 regular all in
      let (after, e, same', _, all') =
        draw_text_lem rasterize whole f measured.0 (pen_x -ℤ measured.1) baseline label 13 color
          regular coherent (subst (Fits f) (sym same) fits) in
      (
        after,
        pen_x -ℤ measured.1,
        ap (λ o. o >>= λ drawn. some (drawn.0, pen_x -ℤ measured.1)) e,
        same' ∙ same,
        all',
      )

  indicators-Keeps :
      (now : Time) (snap : ModuleSnapshot) (label : Option (List ℕ × Color)) (pen_x : ℤ)
      (canvas : Canvas)
      → network_label snap ≡ some label
      → length canvas.pixels ≡ n
      → IsCoherent rasterize canvas.cache
      → (after : Canvas) × (indicators rasterize f baseline now snap pen_x canvas ≡ some after)
        × (length after.pixels ≡ n)
        × IsCoherent rasterize after.cache
  unfolding indicators
  indicators-Keeps now snap label pen_x canvas named same all =
      let (c, x, e, same, all) =
        indicator-KeepsAll pen_x (some (format_local_hhmm now, text_secondary)) canvas same all in
      let (c', x', e', same, all) =
        indicator-KeepsAll (x -ℤ pos 16) (in_secondary (battery_label snap)) c same all in
      let (c'', x'', e'', same, all) = indicator-KeepsAll (x' -ℤ pos 16) label c' same all in
      let (c3, x3, e3, same, all) =
        indicator-KeepsAll (x'' -ℤ pos 16) (volume_label snap) c'' same all in
      (c3, rw (e, e', named, e'', e3), same, all)

-- The buffer of a panel has a byte for each part of each pixel, and its cache holds what the rasterizer
-- gave.
abbrev IsCached : (FontVariant → ℕ → ℕ → Glyph) → Option GlyphCache → Type 0
IsCached rasterize none = Unit
IsCached rasterize (some cache) = IsCoherent rasterize cache

abbrev pub IsPanel : (FontVariant → ℕ → ℕ → Glyph) → PanelOverlay → Type 0
IsPanel rasterize panel =
    (length panel.bitmap.pixels ≡ panel.bitmap.width * panel.bitmap.height * 4)
    × IsCached rasterize panel.text

pub new_overlay-IsPanel :
    (rasterize : FontVariant → ℕ → ℕ → Glyph) (modules : ModuleSnapshot)
    → IsPanel rasterize (new_overlay modules (some []))
unfolding new_bitmap
new_overlay-IsPanel rasterize modules = (length-replicate {A = ℕ} (1920 * panel_height * 4) 0, tt)

pub resize-IsPanel :
    (rasterize : FontVariant → ℕ → ℕ → Glyph) (panel : PanelOverlay) (w : ℕ)
    → IsPanel rasterize panel
    → IsPanel rasterize (resize panel w)
unfolding resize resize_bitmap
resize-IsPanel rasterize panel w (filled, cached) = (
  if_lem (λ (b : PanelBitmap). length b.pixels ≡ b.width * b.height * 4)
      ((panel.bitmap.width == w) && (panel.bitmap.height == panel_height)) filled
      (length-replicate (w * panel_height * 4) 0),
  cached,
)

extent_of-Fits :
    (rasterize : FontVariant → ℕ → ℕ → Glyph) (bitmap : PanelBitmap)
    → length bitmap.pixels ≡ bitmap.width * bitmap.height * 4
    → Fits (extent_of rasterize bitmap) (length bitmap.pixels)
extent_of-Fits rasterize bitmap filled =
    let area : bitmap.height * (bitmap.width * 4) ≡ bitmap.width * bitmap.height * 4 =
      grind arith in
    (omega arith, omega (arith, area, filled))

draw_indicators-Keeps :
    (rasterize : FontVariant → ℕ → ℕ → Glyph)
    (whole : (v : FontVariant) (ch px : ℕ) → IsBitmap (rasterize v ch px)) (f : Extent) (now : Time)
    (snap : ModuleSnapshot) (label : Option (List ℕ × Color)) (pixels : List ℕ)
    (text : Option GlyphCache)
    → Fits f (length pixels)
    → network_label snap ≡ some label
    → IsCached rasterize text
    → (after : List ℕ) × (cache : Option GlyphCache) × (draw_indicators rasterize f now snap pixels
          text
        ≡ some (after, cache))
      × (length after ≡ length pixels)
      × IsCached rasterize cache
unfolding draw_indicators
draw_indicators-Keeps rasterize whole f now snap label pixels none fits named cached =
    (pixels, none, refl, refl, tt)
draw_indicators-Keeps rasterize whole f now snap label pixels (some cache) fits named cached =
    let (after, e, same, all) =
      indicators-Keeps rasterize whole f (length pixels) fits (half (as_i32 f.buf_h) +ℤ pos 5) now
        snap label (as_i32 f.buf_w -ℤ pos 16) (record { pixels = pixels; cache = cache }) named refl
        cached in
    (
      after.pixels,
      some after.cache,
      ap (λ o. o >>= λ (canvas : Canvas). some (canvas.pixels, some canvas.cache)) e,
      same,
      all,
    )

-- A panel whose buffer fits its size and whose cache holds what the rasterizer gave is drawn without a
-- panic, whatever the width, the workspaces, the time and the modules are, as long as the name of
-- the network is not cut inside a character and the rasterizer gives whole bitmaps; the panel
-- is then such a panel again, is not dirty, and has the next generation and the same size.
pub render_lem :
    (rasterize : FontVariant → ℕ → ℕ → Glyph)
    (whole : (v : FontVariant) (ch px : ℕ) → IsBitmap (rasterize v ch px)) (panel : PanelOverlay)
    (active : ℕ) (occupied : List ℕ) (now : Time) (label : Option (List ℕ × Color))
    → IsPanel rasterize panel
    → network_label panel.modules ≡ some label
    → (after : PanelOverlay) × (render rasterize panel active occupied now ≡ some after)
      × IsPanel rasterize after
      × (after.bitmap.dirty ≡ false)
      × (after.bitmap.generation ≡ wrapping_next panel.bitmap.generation)
      × (after.bitmap.width ≡ panel.bitmap.width)
      × (after.bitmap.height ≡ panel.bitmap.height)
unfolding render
render_lem rasterize whole panel active occupied now label (filled, cached) named =
    let f : Extent = extent_of rasterize panel.bitmap in
    let n : ℕ = length panel.bitmap.pixels in
    let fits : Fits f n = extent_of-Fits rasterize panel.bitmap filled in
    let (shapes, e, same) = draw_shapes-Keeps f n fits active occupied panel.bitmap.pixels refl in
    let (after, cache, e', same', cached') =
      draw_indicators-Keeps rasterize whole f now panel.modules label shapes panel.text
        (subst (Fits f) (sym same) fits) named cached in
    (
      record panel {
        bitmap = record panel.bitmap {
          pixels = after;
          dirty = false;
          generation = wrapping_next panel.bitmap.generation;
        };
        text = cache;
      },
      rw (e, e'),
      (same' ∙ same ∙ filled, cached'),
      refl,
      refl,
      refl,
      refl,
    )
