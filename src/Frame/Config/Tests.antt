-- ===== src/Frame/Config/Tests.antt =====
-- A configuration to load: the user's file does not parse, the system's does.
use Prim.Native.String.{len}
use nullxesos.Prelude.{ℕ, ◌==◌, is_empty, if◌then◌else◌, true, String, Option, none, some, [], ◌∷◌}
use nullxesos.Frame.Config.{FilePath, FrameConfig, Files, default, load}
use nullxesos.Frame.Config.Priority.{places, ComesFrom, load-ComesFrom}

abbrev system : FrameConfig ℕ
system = record (default 0) { workspace = record { count = 4; wrap = true } }

-- The user's directory is called "home", the system's "etc".
abbrev read : FilePath → Option String
read path = elim path [ [] ↦ none | dir ∷ rest ↦ some (if len dir == 4 then "?" else "") ]

abbrev parse : String → Option (FrameConfig ℕ)
parse text = if is_empty text then some system else none

abbrev files : Files ℕ
files = record {
  override_path = none;
  config_dir = some ("home" ∷ []);
  read_to_string = read;
  from_toml = parse;
}

load-ComesFrom_example : ComesFrom files 0 (places none (some ("home" ∷ []))) (load files 0)
load-ComesFrom_example = load-ComesFrom files 0
