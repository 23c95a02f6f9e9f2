-- ===== src/Settings/Tests.antt =====
-- The settings program, and the instances of its theorems.
use nullxesos.Prelude.{
  if◌then◌else◌, ℕ, ◌≡◌, refl, ◌⊎◌, ◌≢◌, true, Option, none, some, List, [], ◌∷◌, arith,
}
use nullxesos.Settings.Conf.{
  FrameConfFile, default, Disk, written, Calls, saved, load_frame, save_frame,
}
use nullxesos.Settings.Conf.Atomic.{save_frame-load_frame}

abbrev cfg : FrameConfFile ℕ
cfg = record (default 0) { workspace = record { count = 4; wrap = true } }

-- A TOML that knows two configurations.
abbrev to_toml : FrameConfFile ℕ → Option (List ℕ)
to_toml c = if c.workspace.wrap then some (52 ∷ []) else some []

abbrev from_toml : List ℕ → Option (FrameConfFile ℕ)
from_toml [] = some (default 0)
from_toml (c ∷ s) = some cfg

abbrev disk : Disk
disk = record { target = some []; tmp = none }

abbrev fine : Calls
fine = record { directory_made = true; writing = written; renamed = true }

reads_back : (text : List ℕ) → to_toml cfg ≡ some text → from_toml text ≡ some cfg
reads_back [] h = ground (arith, h)
reads_back (c ∷ s) h = refl

save_frame-load_frame_example :
    let (after, result) = save_frame 0 to_toml from_toml disk cfg fine in
    ((result ≡ saved) × (load_frame 0 to_toml from_toml after ≡ cfg))
    ⊎ ((result ≢ saved)
        × (load_frame 0 to_toml from_toml after ≡ load_frame 0 to_toml from_toml disk))
save_frame-load_frame_example = save_frame-load_frame 0 to_toml from_toml disk cfg fine reads_back
