-- ===== src/Frame/Panel/Tests.antt =====
-- The panel, and the instances of its theorems.
use nullxesos.Prelude.{ℕ, ◌≡◌, refl, true, false, none, some, List, replicate, arith}
use nullxesos.Prelude.Int.{pos, negsuc}
use nullxesos.Shm
use nullxesos.Shm.Pixels.{Color}
use nullxesos.Theme.{selection_bg}
use nullxesos.Frame.Panel.Pixels.{clear, fill_rect, wlcommon_hline}
use nullxesos.Frame.Panel.Modules.{wireless, no_network, ModuleSnapshot, network_label}
use nullxesos.Frame.Panel.Mirror.{mirror_lem}
use nullxesos.Frame.Panel.Label.{network_label_panics}

-- A translucent rectangle in a buffer of 2 by 2 pixels.
mirror_lem_example :
    (clear selection_bg (replicate 16 9) ≡ Shm.Pixels.clear selection_bg (replicate 16 9))
    × (fill_rect (replicate 16 9) 8 2 2 (negsuc 0) (pos 1) 9 9 selection_bg
        ≡ Shm.Pixels.fill_rect (replicate 16 9) 8 2 2 (negsuc 0) (pos 1) 9 9 selection_bg)
    × (wlcommon_hline (replicate 16 9) 8 2 2 (pos 1) (negsuc 0) (pos 2) selection_bg
        ≡ Shm.Pixels.hline (replicate 16 9) 8 2 2 (pos 1) (negsuc 0) (pos 2) selection_bg)
mirror_lem_example = mirror_lem (replicate 16 9) 8 2 2 (negsuc 0) (pos 1) (pos 2) 9 9 selection_bg

-- Nine times the Cyrillic letter of the number 1044.
abbrev cyrillic : List ℕ
cyrillic = replicate 9 1044

abbrev at_home : ModuleSnapshot
at_home = record {
  battery_pct = some 80;
  on_ac = false;
  network = record { kind = wireless; connected = true; ssid = some cyrillic; strength = none };
  volume_pct = none;
  volume_mute = false;
}

cyrillic_panics : network_label at_home ≡ none
cyrillic_panics =
    network_label_panics at_home cyrillic refl refl
      (
        (omega arith, omega arith),
        (
          (omega arith, omega arith),
          (
            (omega arith, omega arith),
            (
              (omega arith, omega arith),
              (
                (omega arith, omega arith),
                (
                  (omega arith, omega arith),
                  (
                    (omega arith, omega arith),
                    ((omega arith, omega arith), ((omega arith, omega arith), tt)),
                  ),
                ),
              ),
            ),
          ),
        ),
      )
      (omega arith)

abbrev pub alone : ModuleSnapshot
alone = record at_home {
  network = record { kind = no_network; connected = false; ssid = none; strength = none };
}
