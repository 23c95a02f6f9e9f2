-- ===== src/Launcher/Draw.antt =====
-- What the launcher shows: crates/launcher/src/draw.rs. `accent` is the colour of the theme.
use nullxesos.Prelude.{
  ℕ, suc, ◌+◌, ◌-◌, ◌*◌, ◌/◌, Bool, true, false, Option, none, some, List, [], ◌∷◌, ◌++◌, take,
  ◌==◌, if◌then◌else◌,
}
use nullxesos.Prelude.Int.{pos}
use nullxesos.Prelude.Text.{codes}
use nullxesos.Shm.Pixels.{Color}
use nullxesos.Theme.{
  surface_3, surface_4, divider, text_primary, text_secondary, text_disabled, selection_bg,
}
use nullxesos.Theme.Text.{regular}
use nullxesos.Paint.{Call, clear_call, rect, horizontal, text_call}
use nullxesos.Launcher.Apps.{AppEntry}

abbrev pub w_px : ℕ
w_px = 600

abbrev pub h_px : ℕ
h_px = 400

abbrev pub row_h : ℕ
row_h = 44

abbrev pub search_h : ℕ
search_h = 52

abbrev pub padding : ℕ
padding = 20

abbrev pub icon_sz : ℕ
icon_sz = 24

abbrev pub row_y : ℕ → ℕ
row_y i = search_h + i * row_h

abbrev pub selection : Color → ℕ → List Call
selection accent ry =
    rect (pos 0) (pos ry) w_px row_h selection_bg ∷ rect (pos 0) (pos ry) 2 row_h accent ∷ []

abbrev pub separator : ℕ → List Call
separator ry = horizontal (pos (ry + row_h - 1)) (pos padding) (pos (w_px - padding)) divider ∷ []

-- The row of the i-th result, which is the last one if no other follows.
unfoldable pub result_row : Color → ℕ → ℕ → Bool → List Call
result_row accent selected i last =
    (if i == selected then selection accent (row_y i) else [])
    ++ (if last then [] else separator (row_y i))

unfoldable pub result_rows : Color → ℕ → ℕ → List AppEntry → List Call
result_rows accent selected i [] = []
result_rows accent selected i (app ∷ []) = result_row accent selected i true
result_rows accent selected i (app ∷ next ∷ apps) =
    result_row accent selected i false ++ result_rows accent selected (suc i) (next ∷ apps)

abbrev pub comment_line : ℕ → Option (List ℕ) → List Call
comment_line ry none = []
comment_line ry (some []) = []
comment_line ry (some (c ∷ comment)) =
    text_call (pos (padding + icon_sz + 12)) (pos (ry + row_h / 2 + 19)) (take 60 (c ∷ comment)) 11
      text_disabled regular
    ∷ []

abbrev pub query_text : List ℕ → Call
query_text [] =
    text_call (pos (padding + 10)) (pos (search_h / 2 + 6)) (codes "Type to search…") 14
      text_disabled regular
query_text (c ∷ query) =
    text_call (pos (padding + 10)) (pos (search_h / 2 + 6)) (c ∷ query) 14 text_primary regular

-- `comment` is the comment of an entry, if it has one.
module _ (comment : AppEntry → Option (List ℕ)) where
  unfoldable pub result_texts : ℕ → ℕ → List AppEntry → List Call
  result_texts selected i [] = []
  result_texts selected i (app ∷ apps) =
      text_call (pos (padding + icon_sz + 12)) (pos (row_y i + row_h / 2 + 5)) app.name 14
        (if i == selected then text_primary else text_secondary) regular
      ∷ (comment_line (row_y i) (comment app) ++ result_texts selected (suc i) apps)

  unfoldable pub paint : Color → Bool → List ℕ → List AppEntry → ℕ → List Call
  paint accent text_loaded query results selected =
      let texts = query_text query ∷ result_texts selected 0 results in
      clear_call surface_3
      ∷ rect (pos 0) (pos 0) w_px search_h surface_4
      ∷ horizontal (pos search_h) (pos 0) (pos w_px) divider
      ∷ rect (pos (padding + 2)) (pos padding) 2 (search_h - padding * 2) accent
      ∷ (result_rows accent selected 0 results ++ (if text_loaded then texts else []))
