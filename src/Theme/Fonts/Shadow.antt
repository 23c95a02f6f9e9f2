-- ===== src/Theme/Fonts/Shadow.antt =====
-- The fonts of the system and those of NULLXES in the search of crates/theme/src/text.rs and
-- crates/wlcommon/src/fonts.rs.
use nullxesos.Prelude.{ℕ, ◌≡◌, refl, ◌∙◌, none, some, List, [], ◌∷◌, arith, first_some, unwrap_or}
use nullxesos.Ipc.Path.{PathBuf, join}
use nullxesos.Theme.Fonts.{
  Outside, Fonts, load_from_candidates, candidate_dirs, load_default_text_renderer, load_candidate,
  read_first, from_bytes, system_dirs, regular_names, medium_names, mono_names,
}

module _ {ℓ} {Font : Type ℓ} (o : Outside Font) where
  unreadable :
      (dir : PathBuf) (names : List PathBuf)
      → ((name : PathBuf) → o.read (join dir name) ≡ none)
      → read_first o names dir ≡ none
  unreadable dir [] u = refl
  unreadable dir (name ∷ names) u = ground (arith, u name, unreadable dir names u)

  load_candidate-unreadable :
      (dir : PathBuf) (names : List PathBuf)
      → ((name : PathBuf) → o.read (join dir name) ≡ none)
      → load_candidate o dir names ≡ first_some (read_first o names) system_dirs
  unfolding load_candidate
  load_candidate-unreadable dir names u = ground (arith, unreadable dir names u)

  -- A directory of which no file can be read has the fonts of the system.
  load_from_candidates-system :
      (dir : PathBuf) (r m : List ℕ)
      → ((name : PathBuf) → o.read (join dir name) ≡ none)
      → first_some (read_first o regular_names) system_dirs ≡ some r
      → first_some (read_first o mono_names) system_dirs ≡ some m
      → load_from_candidates o dir
        ≡ from_bytes o r (unwrap_or (first_some (read_first o medium_names) system_dirs) r) m
  unfolding load_from_candidates
  load_from_candidates-system dir r m u er em =
      rw
        (
          load_candidate-unreadable dir regular_names u,
          load_candidate-unreadable dir medium_names u,
          load_candidate-unreadable dir mono_names u,
          er,
          em,
        )
        refl

  -- With NULLXES_FONT_DIR at a directory of which no file can be read, and the fonts of the system
  -- readable and well-formed, a client draws with those of the system, whatever
  -- /usr/share/fonts/nullxes holds; for the medium font, the regular one stands in.
  pub load_default-system :
      (dir : PathBuf) (r m : List ℕ) (fonts : Fonts Font)
      → o.font_dir ≡ some dir
      → ((name : PathBuf) → o.read (join dir name) ≡ none)
      → first_some (read_first o regular_names) system_dirs ≡ some r
      → first_some (read_first o mono_names) system_dirs ≡ some m
      → from_bytes o r (unwrap_or (first_some (read_first o medium_names) system_dirs) r) m
        ≡ some fonts
      → load_default_text_renderer o ≡ some fonts
  unfolding load_default_text_renderer candidate_dirs
  load_default-system dir r m fonts set u er em e =
      ground (arith, set, load_from_candidates-system dir r m u er em ∙ e)
