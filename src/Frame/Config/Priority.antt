-- ===== src/Frame/Config/Priority.antt =====
-- Which file the configuration comes from.
use nullxesos.Prelude.{
  ◌≡◌, refl, sym, ap, subst, ◌∙◌, ◌⊎◌, inl, inr, none, some, List, [], ◌∷◌, ◌++◌, All, arith,
  Option-cases, Option,
}
use nullxesos.Frame.Config.{
  FilePath, FrameConfig, Files, default, search_paths, read_config, load_from, load,
}

-- The places where a configuration may be, the first one first: the file that an override names, the
-- one in the user's configuration directory, and the system's.
abbrev pub places : Option FilePath → Option FilePath → List FilePath
places none none = ("etc" ∷ "nullxes" ∷ "frame.toml" ∷ []) ∷ []
places (some file) none = file ∷ ("etc" ∷ "nullxes" ∷ "frame.toml" ∷ []) ∷ []
places none (some dir) =
    (dir ++ ("nullxes" ∷ "frame.toml" ∷ [])) ∷ ("etc" ∷ "nullxes" ∷ "frame.toml" ∷ []) ∷ []
places (some file) (some dir) =
    file ∷ (dir ++ ("nullxes" ∷ "frame.toml" ∷ [])) ∷ ("etc" ∷ "nullxes" ∷ "frame.toml" ∷ []) ∷ []

module _ {F64 : Type 0} (files : Files F64) where
  search_paths_lem : search_paths files ≡ places files.override_path files.config_dir
  search_paths_lem = ground (arith, Option-cases files.override_path, Option-cases files.config_dir)

  -- No file at these paths both reads and parses.
  abbrev pub Unusable : List FilePath → Type 0
  Unusable = All (λ p. read_config files p ≡ none)

  module _ (zero_f64 : F64) where
    -- The configuration is that of the first path that reads and parses, or there is none and it is
    -- the default.
    abbrev pub ComesFrom : List FilePath → FrameConfig F64 → Type 0
    ComesFrom paths cfg =
        ((before after : List FilePath) × (path : FilePath) × (paths ≡ before ++ path ∷ after)
          × Unusable before
          × (read_config files path ≡ some cfg))
        ⊎ (Unusable paths × (cfg ≡ default zero_f64))

    skip :
        (path : FilePath) (paths : List FilePath) (cfg : FrameConfig F64)
        → read_config files path ≡ none
        → ComesFrom paths cfg
        → ComesFrom (path ∷ paths) cfg
    skip path paths cfg e (inl (before, after, found, split, bad, good)) =
        inl (path ∷ before, after, found, ap (◌∷◌ path) split, (e, bad), good)
    skip path paths cfg e (inr (bad, d)) = inr ((e, bad), d)

    load_from-cons :
        (path : FilePath) (paths : List FilePath)
        → load_from files zero_f64 (path ∷ paths)
          ≡ elim (read_config files path) [ none ↦ load_from files zero_f64 paths | some cfg ↦ cfg ]
    unfolding load_from
    load_from-cons path paths = ground arith

    load_from-ComesFrom : (paths : List FilePath) → ComesFrom paths (load_from files zero_f64 paths)
    unfolding load_from
    load_from-ComesFrom [] = inr (tt, refl)
    load_from-ComesFrom (path ∷ paths) = elim (Option-cases (read_config files path)) [
      | inl e ↦
          subst (ComesFrom (path ∷ paths)) (sym (load_from-cons path paths ∙ rw e refl))
            (skip path paths _ e (load_from-ComesFrom paths))
      | inr (cfg, e) ↦
          subst (ComesFrom (path ∷ paths)) (sym (load_from-cons path paths ∙ rw e refl))
            (inl ([], paths, path, refl, tt, e))
    ]

    -- The loaded configuration is that of the first file that reads and parses, in the order
    -- override, user, system (a file that fails to parse is passed over like a missing one); where
    -- there is none it is the default configuration.
    pub load-ComesFrom :
        ComesFrom (places files.override_path files.config_dir) (load files zero_f64)
    unfolding load
    load-ComesFrom =
        subst (λ paths. ComesFrom paths (load_from files zero_f64 (search_paths files)))
          search_paths_lem (load_from-ComesFrom (search_paths files))
