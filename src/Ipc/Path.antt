-- ===== src/Ipc/Path.antt =====
-- The paths of the control protocol: crates/ipc/src/path.rs. A path is a text; `xdg_runtime_dir` is the
-- variable of that name.
use nullxesos.Prelude.{ℕ, Option, none, some, List, ◌∷◌, ◌++◌, ◌==◌, if◌then◌else◌, last?}
use nullxesos.Prelude.Text.{codes, decimal}

abbrev pub PathBuf : Type 0
PathBuf = List ℕ

-- `Path::join` of a relative name.
unfoldable pub join : PathBuf → PathBuf → PathBuf
join base name = elim (last? base) [
  | none ↦ name
  | some c ↦ if c == 47 then base ++ name else base ++ (47 ∷ name)
]

unfoldable pub runtime_dir : Option PathBuf → ℕ → PathBuf
unfolding join
runtime_dir (some rt) uid = join rt (codes "nullxes")
runtime_dir none uid = codes "/tmp/nullxes-" ++ decimal uid

unfoldable pub socket_path : Option PathBuf → ℕ → PathBuf
unfolding runtime_dir
socket_path xdg_runtime_dir uid = join (runtime_dir xdg_runtime_dir uid) (codes "frame.sock")

unfoldable pub wayland_display_path : Option PathBuf → ℕ → PathBuf
unfolding runtime_dir
wayland_display_path xdg_runtime_dir uid =
    join (runtime_dir xdg_runtime_dir uid) (codes "wayland-display")

unfoldable pub launcher_lock_path : Option PathBuf → ℕ → PathBuf
unfolding runtime_dir
launcher_lock_path xdg_runtime_dir uid =
    join (runtime_dir xdg_runtime_dir uid) (codes "launcher.lock")
