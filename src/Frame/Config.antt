-- ===== src/Frame/Config.antt =====
-- The configuration of the compositor: crates/frame/src/config.rs. `F64` is Rust's `f64`, of which
-- only the constant 0.0 is used.
pub mod Priority
mod Tests
use mathlib.Core.Option
use nullxesos.Prelude.{ℕ, ◌*◌, Bool, true, false, String, Option, none, some, List, [], ◌∷◌, ◌++◌}

pub record CompositorConfig : Type 0 where
  pub xwayland : Bool
  pub target_fps : ℕ
  pub vrr : Bool
  pub lock_on_suspend : Bool

-- The `i32` fields are given by the values 400 and 30 only.
pub record InputConfig (F64 : Type 0) : Type 0 where
  pub natural_scroll : Bool
  pub tap_to_click : Bool
  pub pointer_accel : F64
  pub repeat_delay : ℕ
  pub repeat_rate : ℕ
  pub xkb_layout : String
  pub xkb_variant : String
  pub xkb_options : String

pub record WorkspaceConfig : Type 0 where
  pub count : ℕ
  pub wrap : Bool

-- Milliseconds; 0 switches the threshold off.
pub record IdleConfig : Type 0 where
  pub dim_ms : ℕ
  pub lock_ms : ℕ
  pub suspend_ms : ℕ

pub record KeybindingConfig : Type 0 where
  pub launcher_binary : String
  pub lock_binary : String

pub record FrameConfig (F64 : Type 0) : Type 0 where
  pub compositor : CompositorConfig
  pub input : InputConfig F64
  pub workspace : WorkspaceConfig
  pub idle : IdleConfig
  pub keybindings : KeybindingConfig

abbrev pub default_idle : IdleConfig
default_idle = record {
  dim_ms = 5 * 60 * 1000;
  lock_ms = 10 * 60 * 1000;
  suspend_ms = 30 * 60 * 1000;
}

abbrev pub default : {F64 : Type 0} → F64 → FrameConfig F64
default zero_f64 = record {
  compositor = record { xwayland = true; target_fps = 0; vrr = true; lock_on_suspend = true };
  input = record {
    natural_scroll = true;
    tap_to_click = true;
    pointer_accel = zero_f64;
    repeat_delay = 400;
    repeat_rate = 30;
    xkb_layout = "";
    xkb_variant = "";
    xkb_options = "";
  };
  workspace = record { count = 9; wrap = false };
  idle = default_idle;
  keybindings = record { launcher_binary = "nullxes-launcher"; lock_binary = "nullxes-lock" };
}

-- A path is the list of its components.
abbrev pub FilePath : Type 0
FilePath = List String

-- The environment that `load` asks: the variable NULLXES_FRAME_CONFIG, `dirs_next::config_dir`,
-- `read_to_string` (`none` where it fails) and the TOML parser of a third-party crate.
pub record Files (F64 : Type 0) : Type 0 where
  pub override_path : Option FilePath
  pub config_dir : Option FilePath
  pub read_to_string : FilePath → Option String
  pub from_toml : String → Option (FrameConfig F64)

-- What `if let` pushes of an optional directory.
abbrev pub one : Option FilePath → List FilePath
one none = []
one (some path) = path ∷ []

module _ {F64 : Type 0} (files : Files F64) where
  -- The paths in the order in which `load` tries them.
  abbrev pub search_paths : List FilePath
  search_paths =
      one files.override_path
      ++ (one (Option.map (λ d. d ++ ("nullxes" ∷ "frame.toml" ∷ [])) files.config_dir)
          ++ (("etc" ∷ "nullxes" ∷ "frame.toml" ∷ []) ∷ []))

  -- A file that cannot be read, or does not parse, is passed over.
  abbrev pub read_config : FilePath → Option (FrameConfig F64)
  read_config path = elim (files.read_to_string path) [
    | none ↦ none
    | some text ↦ files.from_toml text
  ]

  module _ (zero_f64 : F64) where
    unfoldable pub load_from : List FilePath → FrameConfig F64
    load_from [] = default zero_f64
    load_from (path ∷ paths) = elim (files.read_to_string path) [
      | none ↦ load_from paths
      | some text ↦ elim (files.from_toml text) [ none ↦ load_from paths | some cfg ↦ cfg ]
    ]

    unfoldable pub load : FrameConfig F64
    unfolding load_from
    load = load_from search_paths
