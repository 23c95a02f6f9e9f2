-- ===== src/Frame/Tests.antt =====
-- A compositor to run the theorems on: a stack of windows with their places.
mod Moves
mod Locks
mod Protocol
use nullxesos.Prelude.{
  ℕ, ◌+◌, ◌≡◌, refl, ap, ◌∙◌, Bool, true, false, not, Option, none, some, List, [], ◌∷◌, ◌++◌, map,
  map-append, arith, ◌==◌, if◌then◌else◌, filter_by, find, last?, Option-cases, inl, inr,
}
use mathlib.Core.Option
use nullxesos.Prelude.Int.{pos, negsuc}
use nullxesos.Frame.Config.{FrameConfig, default}
use nullxesos.Frame.Platform.{
  Platform, Lawful, Window, WlSurface, Point, Rectangle, same_window, has, without,
}
use nullxesos.Frame.State.{State, new}
use nullxesos.Frame.Keybind.{KeySyms}

abbrev pub Stack : Type 0
Stack = List (Window × Point)

abbrev windows : Stack → List Window
windows s = map (λ e. e.0) s

abbrev others : Window → Stack → Stack
others w s = filter_by (λ e. not (same_window w e.0)) s

abbrev place : Window → Stack → Option Point
place w s = Option.map (λ e. e.1) (find (λ e. same_window w e.0) s)

abbrev raise : Window → Stack → Stack
raise w s = elim (place w s) [ none ↦ s | some loc ↦ others w s ++ ((w, loc) ∷ []) ]

abbrev pub desk : Platform
desk = record {
  F64 = ℕ;
  zero_f64 = 0;
  Space = Stack;
  empty = [];
  elements = windows;
  element_location = λ s w. place w s;
  map_element = λ s w loc b. others w s ++ ((w, loc) ∷ []);
  unmap_elem = λ s w. others w s;
  raise_element = λ s w b. raise w s;
  element_under = λ s loc. last? (windows s);
  output_geometry = λ s o. none;
}

windows-others : (w : Window) (s : Stack) → windows (others w s) ≡ without w (windows s)
windows-others w [] = refl
windows-others w (e ∷ s) = ground (arith, windows-others w s)

windows-on_top :
    (w : Window) (loc : Point) (s : Stack)
    → windows (others w s ++ ((w, loc) ∷ [])) ≡ without w (windows s) ++ (w ∷ [])
windows-on_top w loc s =
    map-append (λ e. e.0) (others w s) ((w, loc) ∷ [])
    ∙ ap (λ ws. ws ++ (w ∷ [])) (windows-others w s)

place-has :
    (w : Window) (s : Stack)
    → has w (windows s) ≡ (elim (place w s) [ none ↦ false | some loc ↦ true ])
place-has w [] = refl
place-has w (e ∷ s) = ground (arith, place-has w s)

windows-raise :
    (w : Window) (s : Stack)
    → windows (raise w s)
      ≡ (if has w (windows s) then without w (windows s) ++ (w ∷ []) else windows s)
windows-raise w s = elim (Option-cases (place w s)) [
  | inl e ↦ ground (arith, e, place-has w s)
  | inr (loc, e) ↦ ground (arith, e, place-has w s, windows-on_top w loc s)
]

pub desk-Lawful : Lawful desk
desk-Lawful = record {
  elements-empty = refl;
  elements-map = λ s w loc b. windows-on_top w loc s;
  elements-unmap = λ s w. windows-others w s;
  elements-raise = λ s w b. windows-raise w s;
}

abbrev pub keysyms : KeySyms
keysyms = record {
  key_1 = 49;
  key_9 = 57;
  key_right = 65363;
  key_left = 65361;
  key_q = 113;
  key_upper_q = 81;
  key_l = 108;
  key_upper_l = 76;
  key_return = 65293;
  key_kp_enter = 65421;
  key_super_l = 65515;
  key_super_r = 65516;
}

abbrev pub surface : ℕ → WlSurface
surface n = record { object = n; client = 1; protocol_id = n + 10 }

abbrev pub window : ℕ → Window
window n = record { handle = n; wl_surface = some (surface n) }

abbrev pub config : FrameConfig ℕ
config = record (default 0) { workspace = record { count = 3; wrap = true } }

abbrev pub at : ℕ → Point
at n = (pos n, negsuc 4)

-- The workspace 0 holds the windows 1 and 2, of which 1 is the focused one, the workspace 2 the
-- window 3.
abbrev pub busy : State desk
busy = record {
  spaces = ((window 1, at 5) ∷ (window 2, at 6) ∷ []) ∷ [] ∷ ((window 3, at 7) ∷ []) ∷ [];
  mgr = record { count = 3; active = 0; focused = some 11 ∷ none ∷ some 13 ∷ [] };
  primary_output = none;
  lock = none;
  xwm_ready = false;
  config = config;
  shutdown = false;
  keyboard = true;
  pointer = true;
  keyboard_focus = some (surface 1);
  effects = [];
}
