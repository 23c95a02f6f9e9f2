-- ===== src/Frame/Xwm.antt =====
-- The life of XWayland: `XwmState` of crates/frame/src/xwm.rs. Xwayland itself and its window manager
-- are smithay's; what the code reads of them is whether they are there.
pub mod Respawn
mod Tests
use nullxesos.Prelude.{
  ℕ, suc, Bool, true, false, Option, none, some, List, [], ◌∷◌, get_elem?, leb, length,
}

-- Seconds.
abbrev pub respawn_delays : List ℕ
respawn_delays = 1 ∷ 2 ∷ 5 ∷ []

-- `launches` counts the calls of `XWayland::new`, of which the last one's result is kept; `sleeps`
-- are the sleeps, the newest first. `panicked` is set by an index out of range.
pub record XwmState : Type 0 where
  pub xwayland_shell : Bool
  pub launches : ℕ
  pub wm : Bool
  pub respawn_count : ℕ
  pub disabled : Bool
  pub sleeps : List ℕ
  pub panicked : Bool

-- `started` says whether `X11Wm::start_wm` returns a window manager.
pub data XwaylandEvent : Type 0 where
  ready : Bool → XwaylandEvent
  exited : XwaylandEvent

abbrev pub new : XwmState
new = record {
  xwayland_shell = false;
  launches = 0;
  wm = false;
  respawn_count = 0;
  disabled = false;
  sleeps = [];
  panicked = false;
}

abbrev pub ensure_shell : XwmState → XwmState
ensure_shell s = record s { xwayland_shell = true }

unfoldable pub start : XwmState → XwmState
start s = elim s.disabled [
  | true ↦ s
  | false ↦ record (ensure_shell s) { launches = suc s.launches }
]

unfoldable pub schedule_respawn : XwmState → XwmState
schedule_respawn s = elim (leb (length respawn_delays) s.respawn_count) [
  | true ↦ record s { disabled = true }
  | false ↦ elim (get_elem? respawn_delays s.respawn_count) [
    | none ↦ record s { panicked = true }
    | some delay ↦
        start (record s { respawn_count = suc s.respawn_count; sleeps = delay ∷ s.sleeps })
  ]
]

unfoldable pub handle_event : XwmState → XwaylandEvent → XwmState
handle_event s (ready true) = record s { wm = true; respawn_count = 0 }
handle_event s (ready false) = schedule_respawn s
handle_event s exited = schedule_respawn (record s { wm = false })

unfoldable pub run : XwmState → List XwaylandEvent → XwmState
run s [] = s
run s (e ∷ es) = run (handle_event s e) es
