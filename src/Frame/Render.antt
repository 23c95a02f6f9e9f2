-- ===== src/Frame/Render.antt =====
-- One frame of the compositor: crates/frame/src/render.rs. The drawing is smithay's: here is what it is
-- given. The statics of a thread are fields.
pub mod Upload
mod Tests
use nullxesos.Prelude.{
  ℕ, ◌≡◌, Bool, Option, none, some, List, [], ◌∷◌, ◌++◌, map, ◌==◌, if◌then◌else◌, ◌>>=◌,
}
use nullxesos.Prelude.Int.{ℤ, ◌-ℤ◌, pos}
use nullxesos.Shm.Pixels.{as_i32}
use nullxesos.Theme.Text.{FontVariant, Glyph}
use nullxesos.Frame.Platform.{Platform, Window, WlSurface}
use nullxesos.Frame.State.{State, active_space}
use nullxesos.Frame.Server.{occupied_from}
use nullxesos.Frame.Panel
use nullxesos.Frame.Panel.{PanelOverlay, PanelBitmap}
use nullxesos.Frame.Panel.Modules.{Time}

-- The memory that is handed over to be shown, by the bytes and the size.
pub record MemoryRenderBuffer : Type 0 where
  pub pixels : List ℕ
  pub w : ℤ
  pub h : ℤ

pub record PanelStatics : Type 0 where
  pub panel_memory : Option MemoryRenderBuffer
  pub panel_gen : ℕ

abbrev pub no_statics : PanelStatics
no_statics = record { panel_memory = none; panel_gen = 0 }

abbrev pub memory_of : PanelBitmap → MemoryRenderBuffer
memory_of bitmap = record {
  pixels = bitmap.pixels;
  w = as_i32 bitmap.width;
  h = as_i32 bitmap.height;
}

-- The layer surfaces of an output, by layer.
pub record LayerMap : Type 0 where
  pub background : List ℕ
  pub bottom : List ℕ
  pub top : List ℕ
  pub overlay : List ℕ

-- An entry stands for the render elements of one surface, in smithay's order.
pub data Element : Type 0 where
  layer : ℕ → Element
  window : Window → Element
  panel_at : ℤ → MemoryRenderBuffer → Element
  lock_surface : WlSurface → Element

abbrev pub or_else : Option ℕ → ℕ → ℕ
or_else none d = d
or_else (some v) d = v

module _ (p : Platform) (rasterize : FontVariant → ℕ → ℕ → Glyph) where
  -- `mode_width` and `mode_height` are those of an output's current mode.
  abbrev pub primary_w : State p → (ℕ → Option ℕ) → ℕ
  primary_w st mode_width = elim st.primary_output [
    | none ↦ 1920
    | some output ↦ or_else (mode_width output) 1920
  ]

  abbrev pub upload : PanelOverlay → PanelStatics → PanelStatics
  upload panel statics = if panel.bitmap.generation == statics.panel_gen then statics else record {
    panel_memory = some (memory_of panel.bitmap);
    panel_gen = panel.bitmap.generation;
  }

  unfoldable pub update_panel_bitmap :
      State p
      → (ℕ → Option ℕ)
      → Time
      → PanelOverlay
      → PanelStatics
      → Option (PanelOverlay × PanelStatics)
  update_panel_bitmap st mode_width now panel statics =
      Panel.render rasterize (Panel.resize panel (primary_w st mode_width)) st.mgr.active
        (occupied_from p 0 st.spaces) now
      >>= λ drawn. some (drawn, upload drawn statics)

  abbrev pub lock_surfaces : Option (List WlSurface) → List Element
  lock_surfaces none = []
  lock_surfaces (some surfaces) = map lock_surface surfaces

  abbrev pub panel_element : Option ℕ → PanelOverlay → PanelStatics → List Element
  panel_element mode_height panel statics = elim statics.panel_memory [
    | none ↦ []
    | some memory ↦
        panel_at (as_i32 (or_else mode_height 1080) -ℤ as_i32 panel.bitmap.height) memory ∷ []
  ]

  -- The elements in the order in which they are pushed; the windows are those of the active space.
  unfoldable pub collect_elements :
      State p → LayerMap → Option ℕ → PanelOverlay → PanelStatics → List Element
  collect_elements st layers mode_height panel statics =
      map layer layers.background
      ++ (map layer layers.bottom
          ++ (map window (p.elements (active_space p st))
              ++ (map layer layers.top
                  ++ (map layer layers.overlay
                      ++ (panel_element mode_height panel statics ++ lock_surfaces st.lock)))))
