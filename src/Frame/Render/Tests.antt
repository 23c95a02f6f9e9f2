-- ===== src/Frame/Render/Tests.antt =====
-- A frame of the compositor, as an instance of the theorem on its panel.
use nullxesos.Prelude.{◌≡◌, refl, none, some, [], arith}
use nullxesos.Theme.Text.Tests.{blocks, blocks-whole}
use nullxesos.Frame.State.{State, new}
use nullxesos.Frame.Tests.{desk, config}
use nullxesos.Frame.Panel.{PanelOverlay, new_overlay, new_bitmap, panel_height}
use nullxesos.Frame.Panel.Modules.{local, network_label}
use nullxesos.Frame.Panel.Whole.{new_overlay-IsPanel}
use nullxesos.Frame.Panel.Tests.{alone}
use nullxesos.Frame.Render.{PanelStatics, no_statics, memory_of, primary_w, update_panel_bitmap}
use nullxesos.Frame.Render.Upload.{IsUploaded, update_panel_bitmap_lem}

abbrev st : State desk
st = new desk config

abbrev panel : PanelOverlay
panel = new_overlay alone (some [])

update_panel_bitmap_lem_example :
    (after : PanelOverlay) × (statics : PanelStatics) × (update_panel_bitmap desk blocks st
        (λ o. some 1280)
        (local 9 5)
        panel
        no_statics
      ≡ some (after, statics))
    × (statics.panel_memory ≡ some (memory_of after.bitmap))
    × (after.bitmap.width ≡ primary_w desk blocks st (λ o. some 1280))
    × (after.bitmap.height ≡ panel_height)
    × IsUploaded blocks after statics
unfolding new_bitmap network_label
update_panel_bitmap_lem_example =
    update_panel_bitmap_lem desk blocks blocks-whole st (λ o. some 1280) (local 9 5) panel
      no_statics none (new_overlay-IsPanel blocks alone, refl, omega arith) refl
