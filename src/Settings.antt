-- ===== src/Settings.antt =====
-- The settings program: crates/nx-settings/src/state.rs. What FRAME answers to a reload is an argument of
-- the step at which the task that asked for it ends.
pub mod Conf
pub mod Render
pub mod Reload
mod Tests
use nullxesos.Prelude.{
  ℕ, zero, suc, ◌+◌, Bool, true, false, ◌||◌, Option, none, some, List, [], ◌∷◌, ◌++◌, map,
  if◌then◌else◌,
}
use nullxesos.Prelude.Text.{codes}
use nullxesos.Keymap.{
  Action, enter, escape, up, down, KeySymbol, action, text, nothing, Xkb, process_key,
}
use nullxesos.Ipc
use nullxesos.Ipc.{IpcError}
use nullxesos.Ipc.Client.{Outcome, answered, error}
use nullxesos.Shm
use nullxesos.Shm.{ShmDoubleBuffer, ok, err}
use nullxesos.Paint.{Call}
use nullxesos.Settings.Conf.{FrameConfFile}
use nullxesos.Settings.Render.{
  Section, theme, input, idle, about, UiState, Names, body_lines, w_px, h_px, paint,
}

-- What is on the display: the buffer's number and size, and the calls that drew it.
pub record Committed : Type 0 where
  pub buffer : ℕ
  pub w : ℕ
  pub h : ℕ
  pub calls : List Call

-- `tasks` counts the reloads that are under way.
pub record SettingsState : Type 0 where
  pub surface : Bool
  pub keyboard : Bool
  pub keymap : Option Xkb
  pub buffer : Option ShmDoubleBuffer
  pub text_loaded : Bool
  pub width : ℕ
  pub height : ℕ
  pub configured : Bool
  pub should_close : Bool
  pub ui : UiState
  pub tasks : ℕ
  pub committed : Option Committed

-- `new`, and `init_surface`.
abbrev pub initial : Bool → SettingsState
initial text_loaded = record {
  surface = true;
  keyboard = false;
  keymap = none;
  buffer = none;
  text_loaded = text_loaded;
  width = w_px;
  height = h_px;
  configured = false;
  should_close = false;
  ui = record { section = theme; status = none };
  tasks = 0;
  committed = none;
}

unfoldable pub section_up : Section → Section
section_up theme = about
section_up input = theme
section_up idle = input
section_up about = idle

unfoldable pub section_down : Section → Section
section_down theme = input
section_down input = idle
section_down idle = about
section_down about = theme

-- `none` is success, and else the text of the error. `show` is the text of an error of the protocol.
unfoldable pub reload_frame : (IpcError → List ℕ) → Bool → Outcome → Option (List ℕ)
reload_frame show false outcome = some (codes "connect to FRAME ipc")
reload_frame show true (error e) = some (codes "send ReloadConfig")
reload_frame show true (answered (Ipc.ok snapshot)) = none
reload_frame show true (answered (Ipc.err e)) = some (show e)

abbrev pub status_text : Option (List ℕ) → List ℕ
status_text none = codes "FRAME reloaded"
status_text (some e) = codes "FRAME reload failed: " ++ e

-- What the display sends; the events of the last kind change nothing here. A keymap that is not
-- loaded is `none`.
pub data Event : Type 0 where
  configure_event close_event : Event
  capabilities_event : Bool → Event
  keymap_event : Option Xkb → Event
  modifiers_event : (Xkb → Xkb) → Event
  key_pressed : ℕ → Event
  release_event : ℕ → Event
  other_event : Event

-- A turn of the loop, or the end of a task with what the connection and the request gave.
pub data Step : Type 0 where
  turn : Event → List Event → Step
  task_ends : Bool → Outcome → Step

abbrev pub update : (Xkb → Xkb) → Option Xkb → Option Xkb
update change none = none
update change (some x) = some (change x)

abbrev pub set_section : Section → UiState → UiState
set_section s ui = record ui { section = s }

abbrev pub set_status : List ℕ → UiState → UiState
set_status s ui = record ui { status = some s }

-- `cfg` is the configuration file as it is read when the lines are made.
module _ {F64 : Type 0} (names : Names) (cfg : FrameConfFile F64) (show : IpcError → List ℕ)
    (memory : ℕ → ℕ → Bool) where
  -- The pool, where there is one or one can be had.
  unfoldable pub ensure_buffer : SettingsState → Option ShmDoubleBuffer
  ensure_buffer st = elim st.buffer [
    | some pool ↦ some pool
    | none ↦
        let (pool, made) = Shm.new memory st.width st.height in
        elim made [ ok _ ↦ some pool | err e ↦ none ]
  ]

  -- From the drawing on.
  unfoldable pub present : SettingsState → ShmDoubleBuffer → SettingsState
  present st pool =
      let (drawn, result) = Shm.draw memory pool in
      let after = record st { buffer = some drawn } in
      elim result [
        | ok (some b) ↦
            if st.surface
            then record after {
              committed = some (record {
                buffer = b.number;
                w = b.w;
                h = b.h;
                calls = paint b.h st.text_loaded st.ui (body_lines names cfg st.ui.section);
              });
            }
            else after
        | _ ↦ after
      ]

  abbrev pub present_on : SettingsState → Option ShmDoubleBuffer → SettingsState
  present_on st none = st
  present_on st (some pool) = present st pool

  unfoldable pub redraw : SettingsState → SettingsState
  redraw st = let shown = present_on st (ensure_buffer st) in if st.configured then shown else st

  -- The state before the redraw that follows.
  unfoldable pub act : SettingsState → Action → SettingsState
  act st up = record st { ui = set_section (section_up st.ui.section) st.ui }
  act st down = record st { ui = set_section (section_down st.ui.section) st.ui }
  act st enter = record st {
    ui = set_status (codes "Reloading FRAME…") st.ui;
    tasks = suc st.tasks;
  }
  act st escape = record st { should_close = true }
  act st _ = st

  unfoldable pub handle_action : SettingsState → Action → SettingsState
  handle_action st a = redraw (act st a)

  abbrev pub release : ℕ → Option ShmDoubleBuffer → Option ShmDoubleBuffer
  release n none = none
  release n (some pool) = some (Shm.mark_released memory pool n)

  abbrev pub handle_symbol : SettingsState → KeySymbol → SettingsState
  handle_symbol st (action a) = handle_action st a
  handle_symbol st (text s) = st
  handle_symbol st nothing = st

  unfoldable pub event : SettingsState → Event → SettingsState
  event st configure_event = redraw (record st { configured = true })
  event st close_event = record st { should_close = true }
  event st (capabilities_event keyboard) = record st { keyboard = st.keyboard || keyboard }
  event st (keymap_event none) = st
  event st (keymap_event (some x)) = record st { keymap = some x }
  event st (modifiers_event change) = record st { keymap = update change st.keymap }
  event st (key_pressed key) = handle_symbol st (process_key st.keymap key)
  event st (release_event n) = record st { buffer = release n st.buffer }
  event st other_event = st

  -- What one call of `blocking_dispatch` hands over.
  unfoldable pub dispatch_all : SettingsState → List Event → SettingsState
  dispatch_all st [] = st
  dispatch_all st (e ∷ es) = dispatch_all (event st e) es

  -- The end of a task changes the status that is shown next.
  unfoldable pub end_task : SettingsState → Bool → Outcome → SettingsState
  end_task st connected outcome = elim st.tasks [
    | zero ↦ st
    | suc tasks ↦ record st {
      ui = set_status (status_text (reload_frame show connected outcome)) st.ui;
      tasks = tasks;
    }
  ]

  -- A closed program stays as it is.
  unfoldable pub step : SettingsState → Step → SettingsState
  step st (turn e es) = let next = dispatch_all st (e ∷ es) in if st.should_close then st else next
  step st (task_ends connected outcome) = end_task st connected outcome

  unfoldable pub run : SettingsState → List Step → SettingsState
  run st [] = st
  run st (s ∷ steps) = run (step st s) steps
