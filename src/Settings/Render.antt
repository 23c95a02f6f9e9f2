-- ===== src/Settings/Render.antt =====
-- What the settings program shows: crates/nx-settings/src/render.rs, and the lines of a section in
-- crates/nx-settings/src/state.rs.
use nullxesos.Prelude.{
  ℕ, ◌+◌, ◌*◌, ◌/◌, Bool, true, false, String, Option, none, some, List, [], ◌∷◌, ◌++◌,
  if◌then◌else◌,
}
use nullxesos.Prelude.Int.{pos, ◌-ℤ◌}
use nullxesos.Prelude.Text.{codes, decimal, decimal_ℤ, show_bool}
use nullxesos.Shm.Pixels.{as_i32}
use nullxesos.Theme.{
  surface_2, surface_3, divider, text_primary, text_secondary, accent, selection_bg, success,
}
use nullxesos.Theme.Text.{regular, medium}
use nullxesos.Paint.{Call, clear_call, rect, vertical, text_call}
use nullxesos.Settings.Conf.{FrameConfFile}

pub data Section : Type 0 where
  theme input idle about : Section

unfoldable pub label : Section → List ℕ
label theme = codes "Theme"
label input = codes "Input"
label idle = codes "Idle"
label about = codes "About"

unfoldable pub title : Section → List ℕ
title theme = codes "Theme"
title input = codes "Input"
title idle = codes "Idle & Lock"
title about = codes "About"

pub record UiState : Type 0 where
  pub section : Section
  pub status : Option (List ℕ)

-- What is asked of the environment: the two paths, the version, and `{:?}` of a text.
pub record Names : Type 0 where
  pub theme_path : List ℕ
  pub socket_path : List ℕ
  pub version : List ℕ
  pub debug : String → List ℕ

module _ {F64 : Type 0} (names : Names) where
  unfoldable pub body_lines : FrameConfFile F64 → Section → List (List ℕ)
  body_lines cfg theme =
      (codes "Theme file: " ++ names.theme_path)
      ∷ codes "Edit theme.toml to change accent and surface colours."
      ∷ codes "After saving, press Enter to push reload to FRAME."
      ∷ []
  body_lines cfg input =
      (codes "xkb_layout      = " ++ names.debug cfg.input.xkb_layout)
      ∷ (codes "xkb_variant     = " ++ names.debug cfg.input.xkb_variant)
      ∷ (codes "repeat_delay_ms = " ++ decimal_ℤ cfg.input.repeat_delay)
      ∷ (codes "repeat_rate_hz  = " ++ decimal_ℤ cfg.input.repeat_rate)
      ∷ (codes "natural_scroll  = " ++ show_bool cfg.input.natural_scroll)
      ∷ (codes "tap_to_click    = " ++ show_bool cfg.input.tap_to_click)
      ∷ []
  body_lines cfg idle =
      (codes "dim_ms     = " ++ decimal cfg.idle.dim_ms)
      ∷ (codes "lock_ms    = " ++ decimal cfg.idle.lock_ms)
      ∷ (codes "suspend_ms = " ++ decimal cfg.idle.suspend_ms)
      ∷ codes "(Edit values in frame.toml then press Enter to reload.)"
      ∷ []
  body_lines cfg about =
      (codes "NX-SETTINGS " ++ names.version)
      ∷ (codes "FRAME socket: " ++ names.socket_path)
      ∷ codes "Press Enter to ping FRAME for state."
      ∷ []

abbrev pub w_px : ℕ
w_px = 720

abbrev pub h_px : ℕ
h_px = 520

abbrev pub sidebar_w : ℕ
sidebar_w = 200

abbrev pub row_h : ℕ
row_h = 40

abbrev pub pad : ℕ
pad = 16

abbrev pub same_section : Section → Section → Bool
same_section theme theme = true
same_section input input = true
same_section idle idle = true
same_section about about = true
same_section _ _ = false

abbrev pub highlight : ℕ → List Call
highlight y =
    rect (pos 0) (pos y) sidebar_w row_h selection_bg
    ∷ vertical (pos 0) (pos y) (pos (y + row_h)) accent
    ∷ []

unfoldable pub sidebar_row : Section → ℕ → Section → List Call
unfolding label
sidebar_row shown i sec =
    let y = 60 + i * row_h in
    let on = same_section shown sec in
    (if on then highlight y else [])
    ++ (text_call (pos pad) (pos (y + row_h / 2 + 5)) (label sec) 13
          (if on then text_primary else text_secondary) regular
        ∷ [])

-- `for line in ui.body_lines()`
unfoldable pub body : ℕ → List (List ℕ) → List Call
body y [] = []
body y (line ∷ lines) =
    text_call (pos (sidebar_w + pad)) (pos y) line 13 text_secondary regular ∷ body (y + 22) lines

abbrev pub footer : ℕ → Option (List ℕ) → List Call
footer buf_h none = []
footer buf_h (some status) =
    text_call (pos (sidebar_w + pad)) (as_i32 buf_h -ℤ pos 16) status 12 success regular ∷ []

abbrev pub sidebar : Section → List Call
sidebar shown =
    sidebar_row shown 0 theme
    ++ (sidebar_row shown 1 input ++ (sidebar_row shown 2 idle ++ sidebar_row shown 3 about))

-- `lines` are those of the section.
unfoldable pub paint : ℕ → Bool → UiState → List (List ℕ) → List Call
paint buf_h text_loaded ui lines =
    let texts =
      text_call (pos pad) (pos 28) (codes "NULLXES Settings") 14 text_primary medium
      ∷ (sidebar ui.section
          ++ (text_call (pos (sidebar_w + pad)) (pos 32) (title ui.section) 18 text_primary medium
              ∷ (body 64 lines ++ footer buf_h ui.status))) in
    clear_call surface_2
    ∷ rect (pos 0) (pos 0) sidebar_w buf_h surface_3
    ∷ vertical (pos sidebar_w) (pos 0) (as_i32 buf_h) divider
    ∷ (if text_loaded then texts else [])
