-- ===== src/Theme/Fonts/Tests.antt =====
-- Searches for the fonts in small file systems.
use nullxesos.Prelude.{ℕ, ◌≡◌, refl, if◌then◌else◌, Option, none, some, List, [], ◌∷◌}
use nullxesos.Prelude.Text.{codes, same_text}
use nullxesos.Ipc.Path.{PathBuf, join}
use nullxesos.Theme.Fonts.{
  Outside, load_default_text_renderer, wlcommon_text_renderer, load_from_candidates, load_candidate,
  candidate_dirs, panel_dirs, from_bytes,
}
use nullxesos.Theme.Fonts.Shadow.{load_default-system}

-- The system has the regular and the monospaced font; the package of NULLXES has them too.
abbrev both_installed : PathBuf → Option (List ℕ)
both_installed p =
    if same_text p (codes "/usr/share/fonts/Inter-Regular.ttf")
    then some (1 ∷ [])
    else if same_text p (codes "/usr/share/fonts/JetBrainsMono-Regular.ttf")
    then some (2 ∷ [])
    else if same_text p (codes "/usr/share/fonts/nullxes/Inter-Regular.ttf")
    then some (3 ∷ [])
    else if same_text p (codes "/usr/share/fonts/nullxes/JetBrainsMono-Regular.ttf")
    then some (4 ∷ [])
    else none

-- A font is its bytes, and NULLXES_FONT_DIR is misspelt.
abbrev misspelt : Outside (List ℕ)
misspelt = record {
  read = both_installed;
  parse = some;
  font_dir = some (codes "/x");
  current_exe = some (codes "/usr/bin/frame");
  parent = λ p. some (codes "/usr/bin");
}

-- Without the variable, the fonts of the package come first.
package_first :
    load_default_text_renderer (record misspelt { font_dir = none })
    ≡ some (record { regular = 3 ∷ []; medium = 3 ∷ []; mono = 4 ∷ [] })
unfolding load_default_text_renderer load_from_candidates load_candidate candidate_dirs from_bytes
    join
package_first = refl

load_default-system_example :
    load_default_text_renderer misspelt
    ≡ some (record { regular = 1 ∷ []; medium = 1 ∷ []; mono = 2 ∷ [] })
unfolding join from_bytes
load_default-system_example =
    load_default-system misspelt (codes "/x") (1 ∷ []) (2 ∷ [])
      (record { regular = 1 ∷ []; medium = 1 ∷ []; mono = 2 ∷ [] }) refl (λ name. refl) refl refl
      refl

-- The fonts lie in the prefix of the program: the clients draw texts, and the panel does not.
abbrev in_prefix : Outside (List ℕ)
in_prefix = record misspelt {
  font_dir = none;
  read = λ p.
      if same_text p (codes "/opt/nx/share/fonts/nullxes/Inter-Regular.ttf")
      then some (1 ∷ [])
      else if same_text p (codes "/opt/nx/share/fonts/nullxes/JetBrainsMono-Regular.ttf")
      then some (2 ∷ [])
      else none;
  parent = λ p.
      if same_text p (codes "/opt/nx/bin")
      then some (codes "/opt/nx")
      else some (codes "/opt/nx/bin");
}

clients_find :
    load_default_text_renderer in_prefix
    ≡ some (record { regular = 1 ∷ []; medium = 1 ∷ []; mono = 2 ∷ [] })
unfolding load_default_text_renderer load_from_candidates load_candidate candidate_dirs from_bytes
    join
clients_find = refl

panel_does_not : wlcommon_text_renderer in_prefix ≡ none
unfolding wlcommon_text_renderer load_from_candidates load_candidate panel_dirs from_bytes join
panel_does_not = refl

-- Nothing can be read.
abbrev bare : Outside (List ℕ)
bare = record misspelt { read = λ p. none }
