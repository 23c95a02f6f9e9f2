-- ===== src/Frame/System.antt =====
-- The listeners to the services of the system: `run` and its helpers in
-- crates/frame/src/system/upower.rs and nm.rs, which write the snapshot that the panel reads. Each
-- is a task of its own; the messages of D-Bus that come to the two, in any order, are a sequence of
-- events, and what a call over D-Bus returns is part of the event, `none` being an error.
pub mod Interleaving
pub mod Tests
use nullxesos.Prelude.{
  ℕ, ◌≡◌, Bool, true, false, not, ◌||◌, Option, none, some, List, [], ◌∷◌, ◌>>=◌, if◌then◌else◌,
  leb, ◌==◌, min, unwrap_or,
}
use nullxesos.Prelude.Int.{ℤ, pos, negsuc}
use nullxesos.Prelude.Text.{codes, same_text}
use nullxesos.Frame.Panel.Modules.{
  ModuleSnapshot, NetworkSnapshot, NetworkKind, no_network, wired, wireless, other_network,
}

-- An `f64` as `round` leaves it: the integer, or `none` for a NaN.
abbrev pub Rounded : Type 0
Rounded = Option ℤ

-- `clamp(0.0, 100.0) as u8`
unfoldable pub clamp_percent : Rounded → ℕ
clamp_percent none = 0
clamp_percent (some (pos n)) = min n 100
clamp_percent (some (negsuc n)) = 0

-- `path_ok` says that the path is accepted, `built` and `rebuilt` that the proxy can be built, by
-- `pick_battery` and then by `run`.
pub record Device : Type 0 where
  pub path_ok : Bool
  pub built : Bool
  pub kind : Option ℕ
  pub rebuilt : Bool
  pub percentage : Option Rounded

unfoldable pub pick_battery : List Device → Option Device
pick_battery [] = none
pick_battery (d ∷ ds) =
    if not d.path_ok then none else if not d.built then pick_battery ds else elim d.kind [
      | none ↦ pick_battery ds
      | some kind ↦ if kind == 2 then some d else pick_battery ds
    ]

-- `proxy` says that the bus and the service answer.
pub record UPower : Type 0 where
  pub proxy : Bool
  pub on_battery : Option Bool
  pub devices : Option (List Device)

pub record ActiveConnection : Type 0 where
  pub connection_type : Option (List ℕ)
  pub id : Option (List ℕ)

pub record NetworkManager : Type 0 where
  pub state : Option ℕ
  pub primary_connection : Option (List ℕ)
  pub active : Option ActiveConnection

-- `upower_watching` and `nm_watching` say that the task is in its loop.
pub record Listeners : Type 0 where
  pub snapshot : ModuleSnapshot
  pub upower_watching : Bool
  pub nm_watching : Bool

pub data Event : Type 0 where
  upower_starts : UPower → Event
  percentage_changed : Option Rounded → Event
  on_battery_changed : Option Bool → Event
  upower_ends : Event
  nm_starts : (proxy : Bool) → NetworkManager → (subscribed : Bool) → Event
  nm_state_changed : NetworkManager → Event
  nm_ends : Event

abbrev pub set_on_ac : ModuleSnapshot → Bool → ModuleSnapshot
set_on_ac s b = record s { on_ac = b }

abbrev pub set_battery : ModuleSnapshot → Rounded → ModuleSnapshot
set_battery s v = record s { battery_pct = some (clamp_percent v) }

-- `upower::run` up to its loop, and whether it gets there.
unfoldable pub upower_run : UPower → ModuleSnapshot → ModuleSnapshot × Bool
upower_run u s =
    if not u.proxy
    then (s, false)
    else let s1 = set_on_ac s (elim u.on_battery [ none ↦ true | some b ↦ not b ]) in
      elim (u.devices >>= pick_battery) [
        | none ↦ (s1, false)
        | some dev ↦
            if not dev.rebuilt
            then (s1, false)
            else (set_battery s1 (unwrap_or dev.percentage (some (pos 0))), true)
      ]

abbrev pub kind_of : List ℕ → NetworkKind
kind_of t =
    if same_text t (codes "802-3-ethernet")
    then wired
    else if same_text t (codes "802-11-wireless")
    then wireless
    else other_network

-- The connection that is asked about: the path is neither empty nor "/".
abbrev pub asked : NetworkManager → Option ActiveConnection
asked nm = nm.primary_connection >>= λ path.
    if same_text path [] || same_text path (codes "/") then none else nm.active

abbrev pub network_kind : Option ActiveConnection → NetworkKind
network_kind active = elim (active >>= λ a. a.connection_type) [
  | none ↦ no_network
  | some t ↦ kind_of t
]

abbrev pub network_ssid : NetworkKind → Option ActiveConnection → Option (List ℕ)
network_ssid wireless active = active >>= λ a. a.id
network_ssid _ active = none

unfoldable pub update_once : NetworkManager → ModuleSnapshot → ModuleSnapshot
update_once nm s =
    let kind = network_kind (asked nm) in
    record s {
      network = record {
        kind = kind;
        connected = leb 70 (unwrap_or nm.state 0);
        ssid = network_ssid kind (asked nm);
        strength = none;
      };
    }

unfoldable pub step : Listeners → Event → Listeners
step l (upower_starts u) =
    let r = upower_run u l.snapshot in record l { snapshot = r.0; upower_watching = r.1 }
step l (percentage_changed none) = l
step l (percentage_changed (some v)) =
    if l.upower_watching then record l { snapshot = set_battery l.snapshot v } else l
step l (on_battery_changed none) = l
step l (on_battery_changed (some b)) =
    if l.upower_watching then record l { snapshot = set_on_ac l.snapshot (not b) } else l
step l upower_ends = record l { upower_watching = false }
step l (nm_starts false nm subscribed) = l
step l (nm_starts true nm subscribed) = record l {
  snapshot = update_once nm l.snapshot;
  nm_watching = subscribed;
}
step l (nm_state_changed nm) =
    if l.nm_watching then record l { snapshot = update_once nm l.snapshot } else l
step l nm_ends = record l { nm_watching = false }

unfoldable pub run : Listeners → List Event → Listeners
run l [] = l
run l (e ∷ es) = run (step l e) es
