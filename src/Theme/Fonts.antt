-- ===== src/Theme/Fonts.antt =====
-- The search for the font files: the loading in crates/theme/src/text.rs, and the two lists of
-- directories, of the clients in crates/wlcommon/src/fonts.rs and of the panel in
-- crates/frame/src/panel/mod.rs. The files, the environment and the reading of a font are outside.
pub mod Found
pub mod Shadow
pub mod Tests
use nullxesos.Prelude.{
  ℕ, Option, none, some, List, [], ◌∷◌, ◌++◌, ◌>>=◌, map, String, first_some, unwrap_or,
}
use nullxesos.Prelude.Text.{codes}
use nullxesos.Ipc.Path.{PathBuf, join}

-- `read` is `std::fs::read`, `parse` the reading of a font by fontdue, `font_dir` the variable
-- NULLXES_FONT_DIR, and `parent` is `Path::parent`.
pub record Outside {ℓ} (Font : Type ℓ) : Type ℓ where
  pub read : PathBuf → Option (List ℕ)
  pub parse : List ℕ → Option Font
  pub font_dir : Option PathBuf
  pub current_exe : Option PathBuf
  pub parent : PathBuf → Option PathBuf

pub record Fonts {ℓ} (Font : Type ℓ) : Type ℓ where
  pub regular : Font
  pub medium : Font
  pub mono : Font

abbrev pub paths : List String → List PathBuf
paths = map codes

abbrev pub system_dirs : List PathBuf
system_dirs = paths (
    "/usr/share/fonts/truetype" ∷ "/usr/share/fonts/opentype" ∷ "/usr/share/fonts"
    ∷ "/usr/local/share/fonts" ∷ [])

abbrev pub regular_names : List PathBuf
regular_names =
    paths ("Inter-Regular.ttf" ∷ "inter/Inter-Regular.ttf" ∷ "Inter/Inter-Regular.ttf" ∷ [])

abbrev pub medium_names : List PathBuf
medium_names = paths ("Inter-Medium.ttf" ∷ "inter/Inter-Medium.ttf" ∷ "Inter/Inter-Medium.ttf" ∷ [])

abbrev pub mono_names : List PathBuf
mono_names = paths (
    "JetBrainsMono-Regular.ttf" ∷ "jetbrains-mono/JetBrainsMono-Regular.ttf"
    ∷ "JetBrainsMono/JetBrainsMono-Regular.ttf" ∷ [])

module _ {ℓ} {Font : Type ℓ} (o : Outside Font) where
  -- The inner loop of `load_candidate`.
  abbrev pub read_first : List PathBuf → PathBuf → Option (List ℕ)
  read_first names dir = first_some (λ name. o.read (join dir name)) names

  unfoldable pub load_candidate : PathBuf → List PathBuf → Option (List ℕ)
  load_candidate base names = elim (read_first names base) [
    | some bytes ↦ some bytes
    | none ↦ first_some (read_first names) system_dirs
  ]

  unfoldable pub from_bytes : List ℕ → List ℕ → List ℕ → Option (Fonts Font)
  from_bytes regular_bytes medium_bytes mono_bytes = o.parse regular_bytes >>= λ regular.
      o.parse medium_bytes >>= λ medium. o.parse mono_bytes >>= λ mono.
      some (record { regular = regular; medium = medium; mono = mono })

  unfoldable pub load_from_candidates : PathBuf → Option (Fonts Font)
  load_from_candidates base_dir = load_candidate base_dir regular_names >>= λ regular.
      let medium = unwrap_or (load_candidate base_dir medium_names) regular in
      load_candidate base_dir mono_names >>= λ mono. from_bytes regular medium mono

  abbrev pub pushed : Option PathBuf → List PathBuf
  pushed none = []
  pushed (some dir) = dir ∷ []

  -- What the clients add for the directory of the program.
  abbrev pub near_program : Option PathBuf → List PathBuf
  near_program none = []
  near_program (some dir) =
      (join dir (codes "assets/fonts"))
      ∷ pushed (o.parent dir >>= λ prefix. some (join prefix (codes "share/fonts/nullxes")))

  unfoldable pub candidate_dirs : List PathBuf
  candidate_dirs =
      pushed o.font_dir
      ++ (codes "/usr/share/fonts/nullxes"
          ∷ (near_program (o.current_exe >>= o.parent)
              ++ paths (
                  "assets/fonts" ∷ "/usr/share/fonts/inter" ∷ "/usr/share/fonts/Inter"
                  ∷ "/usr/share/fonts/truetype/inter" ∷ "/usr/share/fonts/truetype/Inter"
                  ∷ "/usr/share/fonts/TTF" ∷ "/usr/share/fonts/jetbrains-mono"
                  ∷ "/usr/share/fonts/JetBrainsMono" ∷ "/usr/share/fonts/truetype/jetbrains-mono"
                  ∷ "/usr/share/fonts" ∷ [])))

  -- The list of the panel.
  unfoldable pub panel_dirs : List PathBuf
  panel_dirs =
      pushed o.font_dir
      ++ (codes "/usr/share/fonts/nullxes"
          ∷ (pushed (o.current_exe >>= o.parent >>= λ dir. some (join dir (codes "assets/fonts")))
              ++ paths (
                  "assets/fonts" ∷ "/usr/share/fonts/inter" ∷ "/usr/share/fonts/Inter"
                  ∷ "/usr/share/fonts/truetype/inter" ∷ "/usr/share/fonts/jetbrains-mono"
                  ∷ "/usr/share/fonts/JetBrainsMono" ∷ "/usr/share/fonts" ∷ [])))

  unfoldable pub load_default_text_renderer : Option (Fonts Font)
  load_default_text_renderer = first_some load_from_candidates candidate_dirs

  unfoldable pub wlcommon_text_renderer : Option (Fonts Font)
  wlcommon_text_renderer = first_some load_from_candidates panel_dirs
