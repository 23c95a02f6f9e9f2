-- ===== src/Frame/System/Tests.antt =====
-- The listeners on small sequences of messages.
use nullxesos.Prelude.{◌≡◌, refl, true, false, not, none, some, List, [], ◌∷◌, filter_by}
use nullxesos.Prelude.Int.{pos}
use nullxesos.Prelude.Text.{codes}
use nullxesos.Frame.Panel.Modules.{no_network, wireless}
use nullxesos.Frame.System.{
  Listeners, Event, NetworkManager, upower_starts, percentage_changed, on_battery_changed,
  upower_ends, nm_starts, nm_state_changed, run, step, upower_run, pick_battery, clamp_percent,
  update_once,
}
use nullxesos.Frame.System.Interleaving.{
  SamePower, SameNet, SameVolume, from_upower, run_interleaves, InRange, run-InRange,
}

abbrev at_start : Listeners
at_start = record {
  snapshot = record {
    battery_pct = none;
    on_ac = false;
    network = record { kind = no_network; connected = false; ssid = none; strength = none };
    volume_pct = none;
    volume_mute = false;
  };
  upower_watching = false;
  nm_watching = false;
}

abbrev at_home : NetworkManager
at_home = record {
  state = some 70;
  primary_connection = some (codes "/org/freedesktop/NetworkManager/ActiveConnection/1");
  active =
      some (record { connection_type = some (codes "802-11-wireless"); id = some (codes "home") });
}

-- A supply, then a battery; the network comes up between the readings.
abbrev messages : List Event
messages =
    nm_starts true (record at_home { state = none; active = none }) true
    ∷ upower_starts (record {
      proxy = true;
      on_battery = some true;
      devices = some (
          record { path_ok = true; built = true; kind = some 1; rebuilt = true; percentage = none }
          ∷ record {
            path_ok = true;
            built = true;
            kind = some 2;
            rebuilt = true;
            percentage = some (some (pos 80));
          }
          ∷ []);
    })
    ∷ nm_state_changed at_home
    ∷ percentage_changed (some (some (pos 130)))
    ∷ upower_ends
    ∷ on_battery_changed (some false)
    ∷ []

snapshot_after : (run at_start messages).snapshot ≡ record {
  battery_pct = some 100;
  on_ac = false;
  network = record {
    kind = wireless;
    connected = true;
    ssid = some (codes "home");
    strength = none;
  };
  volume_pct = none;
  volume_mute = false;
}
unfolding run step upower_run pick_battery clamp_percent update_once
snapshot_after = refl

run_interleaves_example :
    SamePower (run at_start messages) (run at_start (filter_by from_upower messages))
    × SameNet (run at_start messages) (run at_start (filter_by (λ e. not (from_upower e)) messages))
    × SameVolume (run at_start messages) at_start
run_interleaves_example = run_interleaves at_start messages

run-InRange_example : InRange (run at_start messages).snapshot.battery_pct
run-InRange_example = run-InRange at_start messages tt
