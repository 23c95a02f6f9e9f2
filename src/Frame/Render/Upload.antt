-- ===== src/Frame/Render/Upload.antt =====
-- The panel that is shown is the panel that was drawn.
use nullxesos.Prelude.{
  ℕ, ◌^◌, ◌<◌, ◌≡◌, ◌⊎◌, refl, ◌∙◌, inl, inr, false, ◌&&◌, Option, some, List, arith, ◌==◌,
  Bool-cases,
}
use nullxesos.Shm.Pixels.{Color}
use nullxesos.Theme.Text.{FontVariant, Glyph}
use nullxesos.Theme.Text.Bounds.{IsBitmap}
use nullxesos.Frame.Platform.{Platform}
use nullxesos.Frame.State.{State}
use nullxesos.Frame.Server.{occupied_from}
use nullxesos.Frame.Panel.{PanelOverlay, resize, resize_bitmap, panel_height, wrapping_next}
use nullxesos.Frame.Panel.Modules.{Time, network_label}
use nullxesos.Frame.Panel.Whole.{IsPanel, render_lem, resize-IsPanel}
use nullxesos.Frame.Render.{PanelStatics, memory_of, primary_w, update_panel_bitmap}

next-ne :
    (g g' : ℕ) → g < 2 ^ 64 → (g' ≡ g) ⊎ (g' ≡ wrapping_next g) → (wrapping_next g' == g) ≡ false
next-ne g g' small near = ground (arith, near)

resized_lem :
    (panel : PanelOverlay) (w : ℕ)
    → ((resize panel w).bitmap.width ≡ w)
      × ((resize panel w).bitmap.height ≡ panel_height)
      × (((resize panel w).bitmap.generation ≡ panel.bitmap.generation)
          ⊎ ((resize panel w).bitmap.generation ≡ wrapping_next panel.bitmap.generation))
unfolding resize resize_bitmap
resized_lem panel w =
    elim (Bool-cases ((panel.bitmap.width == w) && (panel.bitmap.height == panel_height))) [
      | inl e ↦ (ground (arith, e), ground (arith, e), inl (ground (arith, e)))
      | inr e ↦ (ground (arith, e), ground (arith, e), inr (ground (arith, e)))
    ]

-- A panel that can be drawn, whose generation is the one that was uploaded last.
abbrev pub IsUploaded : (FontVariant → ℕ → ℕ → Glyph) → PanelOverlay → PanelStatics → Type 0
IsUploaded rasterize panel statics =
    IsPanel rasterize panel
    × (panel.bitmap.generation ≡ statics.panel_gen)
    × (statics.panel_gen < 2 ^ 64)

-- Each frame hands over the panel as it is drawn for this frame, never an older one, with the width of
-- the output (1920 where none is known) and 48 rows, from a panel whose buffer fits its size, whose
-- cache holds what the rasterizer gave, and whose generation is the one handed over last, and
-- leaves such a panel; this as long as the name of the network is not cut inside a character and
-- the rasterizer gives whole bitmaps.
pub update_panel_bitmap_lem :
    (p : Platform) (rasterize : FontVariant → ℕ → ℕ → Glyph)
    (whole : (v : FontVariant) (ch px : ℕ) → IsBitmap (rasterize v ch px)) (st : State p)
    (mode_width : ℕ → Option ℕ) (now : Time) (panel : PanelOverlay) (statics : PanelStatics)
    (label : Option (List ℕ × Color))
    → IsUploaded rasterize panel statics
    → network_label panel.modules ≡ some label
    → (after : PanelOverlay) × (statics' : PanelStatics) × (update_panel_bitmap p rasterize st
          mode_width now panel statics
        ≡ some (after, statics'))
      × (statics'.panel_memory ≡ some (memory_of after.bitmap))
      × (after.bitmap.width ≡ primary_w p rasterize st mode_width)
      × (after.bitmap.height ≡ panel_height)
      × IsUploaded rasterize after statics'
unfolding update_panel_bitmap resize
update_panel_bitmap_lem p rasterize whole st mode_width now panel statics label (good, same, small)
      named =
    let w : ℕ = primary_w p rasterize st mode_width in
    let (wide, high, near) = resized_lem panel w in
    let (after, e, good', _, generation, w', h') =
      render_lem rasterize whole (resize panel w) st.mgr.active (occupied_from p 0 st.spaces) now
        label (resize-IsPanel rasterize panel w good) named in
    let newer : (after.bitmap.generation == statics.panel_gen) ≡ false = ground (
      arith,
      same,
      generation,
      small,
      near,
      next-ne panel.bitmap.generation (resize panel w).bitmap.generation,
    ) in
    (
      after,
      record { panel_memory = some (memory_of after.bitmap); panel_gen = after.bitmap.generation },
      ground (arith, e, newer),
      refl,
      w' ∙ wide,
      h' ∙ high,
      (good', refl, ground (arith, generation)),
    )
