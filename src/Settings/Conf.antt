-- ===== src/Settings/Conf.antt =====
-- The configuration file as the settings program reads and writes it: crates/nx-settings/src/conf.rs.
-- `F64` is Rust's `f64`, of which only the constant 0.0 is used. TOML is a third-party crate's.
pub mod Atomic
--DD
use nullxesos.Prelude.{ℕ, Bool, true, false, String, Option, none, some, List, [], ◌∷◌}
use nullxesos.Prelude.Int.{ℤ, pos}

pub record Compositor : Type 0 where
  pub xwayland : Bool
  pub target_fps : ℕ
  pub vrr : Bool
  pub lock_on_suspend : Bool

pub record Input (F64 : Type 0) : Type 0 where
  pub natural_scroll : Bool
  pub tap_to_click : Bool
  pub pointer_accel : F64
  pub repeat_delay : ℤ
  pub repeat_rate : ℤ
  pub xkb_layout : String
  pub xkb_variant : String
  pub xkb_options : String

pub record Workspace : Type 0 where
  pub count : ℕ
  pub wrap : Bool

pub record Idle : Type 0 where
  pub dim_ms : ℕ
  pub lock_ms : ℕ
  pub suspend_ms : ℕ

pub record Keybindings : Type 0 where
  pub launcher_binary : String
  pub lock_binary : String

pub record FrameConfFile (F64 : Type 0) : Type 0 where
  pub compositor : Compositor
  pub input : Input F64
  pub workspace : Workspace
  pub idle : Idle
  pub keybindings : Keybindings

-- The derived default: every field is false, zero or empty.
abbrev pub default : {F64 : Type 0} → F64 → FrameConfFile F64
default zero_f64 = record {
  compositor = record { xwayland = false; target_fps = 0; vrr = false; lock_on_suspend = false };
  input = record {
    natural_scroll = false;
    tap_to_click = false;
    pointer_accel = zero_f64;
    repeat_delay = pos 0;
    repeat_rate = pos 0;
    xkb_layout = "";
    xkb_variant = "";
    xkb_options = "";
  };
  workspace = record { count = 0; wrap = false };
  idle = record { dim_ms = 0; lock_ms = 0; suspend_ms = 0 };
  keybindings = record { launcher_binary = ""; lock_binary = "" };
}

-- The two files that the program touches: that of the configuration, frame.toml, and frame.tmp beside
-- it, each with its contents if it is there.
pub record Disk : Type 0 where
  pub target : Option (List ℕ)
  pub tmp : Option (List ℕ)

-- How the calls of the operating system end. A write that fails leaves of frame.tmp what it says.
pub data Writing : Type 0 where
  written : Writing
  write_failed : Option (List ℕ) → Writing

pub record Calls : Type 0 where
  pub directory_made : Bool
  pub writing : Writing
  pub renamed : Bool

pub data Saved : Type 0 where
  saved invalid_data io_error : Saved

-- `fs::write`, then `rename`, which puts the file in the place of the other one. Permissions change no
-- contents.
unfoldable pub write_atomic : Disk → List ℕ → Writing → Bool → Disk × Saved
write_atomic disk bytes (write_failed left) renamed = (record disk { tmp = left }, io_error)
write_atomic disk bytes written true = (record { target = some bytes; tmp = none }, saved)
write_atomic disk bytes written false = (record disk { tmp = some bytes }, io_error)

module _ {F64 : Type 0} (zero_f64 : F64) (to_toml : FrameConfFile F64 → Option (List ℕ))
    (from_toml : List ℕ → Option (FrameConfFile F64)) where
  abbrev pub or_default : Option (FrameConfFile F64) → FrameConfFile F64
  or_default none = default zero_f64
  or_default (some cfg) = cfg

  unfoldable pub load_frame : Disk → FrameConfFile F64
  load_frame disk = elim disk.target [
    | some text ↦ or_default (from_toml text)
    | none ↦ default zero_f64
  ]

  unfoldable pub save_frame : Disk → FrameConfFile F64 → Calls → Disk × Saved
  save_frame disk cfg calls = elim calls.directory_made [
    | false ↦ (disk, io_error)
    | true ↦ elim (to_toml cfg) [
      | none ↦ (disk, invalid_data)
      | some text ↦ write_atomic disk text calls.writing calls.renamed
    ]
  ]
