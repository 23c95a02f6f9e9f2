-- ===== src/Slate.antt =====
-- The terminal emulator: crates/slate/src/{state,term}.rs. The emulation and the shell are a
-- third-party crate's: what the screen holds comes as an argument, and `reflow` is what a resize makes
-- of it. `pty` says whether the n-th attempt to start a shell succeeds, `memory` is that of Shm.
pub mod Render
pub mod Sizes
pub mod Typing
pub mod Waiting
mod Tests
use nullxesos.Prelude.{
  ℕ, suc, ◌+◌, ◌%◌, ◌^◌, Bool, true, false, not, ◌&&◌, ◌||◌, Option, none, some, List, [], ◌∷◌,
  ◌++◌, ltb, ◌==◌, if◌then◌else◌,
}
use nullxesos.Prelude.Int.{ℤ, pos, pos_part, ltb_ℤ}
use nullxesos.Keymap.{
  Action, enter, escape, backspace, delete, tab, up, down, left, right, home, end, page_up,
  page_down, KeySymbol, action, text, nothing, Xkb, process_key,
}
use nullxesos.Shm
use nullxesos.Shm.{ShmDoubleBuffer, ok, err}
use nullxesos.Paint.{Call}
use nullxesos.Slate.Render.{Screen, empty_screen, cell_w, cell_h, cell_grid_for_window, paint}

abbrev pub default_w : ℕ
default_w = 800

abbrev pub default_h : ℕ
default_h = 500

pub record WindowSize : Type 0 where
  pub num_cols : ℕ
  pub num_lines : ℕ
  pub cell_width : ℕ
  pub cell_height : ℕ

-- `size` is what the shell was told last, `columns` and `lines` are those of the grid; `written` is
-- what was sent to the shell, the oldest first.
pub record TerminalSession : Type 0 where
  pub size : WindowSize
  pub columns : ℕ
  pub lines : ℕ
  pub screen : Screen
  pub written : List (List ℕ)

-- What is on the display: the buffer's number and size, and the calls that drew it.
pub record Committed : Type 0 where
  pub buffer : ℕ
  pub w : ℕ
  pub h : ℕ
  pub calls : List Call

-- `dirty` counts the notifications in the channel from the thread of the shell; `attempts` those to
-- start a shell.
pub record SlateState : Type 0 where
  pub surface : Bool
  pub keyboard : Bool
  pub keymap : Option Xkb
  pub buffer : Option ShmDoubleBuffer
  pub text_loaded : Bool
  pub width : ℕ
  pub height : ℕ
  pub configured : Bool
  pub should_close : Bool
  pub term : Option TerminalSession
  pub dirty : ℕ
  pub attempts : ℕ
  pub committed : Option Committed

-- `new`, and `init_surface`.
abbrev pub initial : Bool → SlateState
initial text_loaded = record {
  surface = true;
  keyboard = false;
  keymap = none;
  buffer = none;
  text_loaded = text_loaded;
  width = default_w;
  height = default_h;
  configured = false;
  should_close = false;
  term = none;
  dirty = 0;
  attempts = 0;
  committed = none;
}

abbrev pub window_size : ℕ → ℕ → WindowSize
window_size cols rows = record {
  num_cols = cols;
  num_lines = rows;
  cell_width = cell_w % 2 ^ 16;
  cell_height = cell_h % 2 ^ 16;
}

abbrev pub new_session : ℕ → ℕ → TerminalSession
new_session cols rows = record {
  size = window_size cols rows;
  columns = cols;
  lines = rows;
  screen = empty_screen;
  written = [];
}

-- `TerminalSession::write`
abbrev pub write : TerminalSession → List ℕ → TerminalSession
write t bytes = record t { written = t.written ++ (bytes ∷ []) }

-- The bytes of a key that is not a text, ESC being 27.
unfoldable pub key_bytes : Action → List ℕ
key_bytes enter = 13 ∷ []
key_bytes backspace = 127 ∷ []
key_bytes delete = 27 ∷ 91 ∷ 51 ∷ 126 ∷ []
key_bytes tab = 9 ∷ []
key_bytes up = 27 ∷ 91 ∷ 65 ∷ []
key_bytes down = 27 ∷ 91 ∷ 66 ∷ []
key_bytes right = 27 ∷ 91 ∷ 67 ∷ []
key_bytes left = 27 ∷ 91 ∷ 68 ∷ []
key_bytes home = 27 ∷ 91 ∷ 72 ∷ []
key_bytes end = 27 ∷ 91 ∷ 70 ∷ []
key_bytes page_up = 27 ∷ 91 ∷ 53 ∷ 126 ∷ []
key_bytes page_down = 27 ∷ 91 ∷ 54 ∷ 126 ∷ []
key_bytes escape = 27 ∷ []

abbrev pub write_to : Option TerminalSession → List ℕ → Option TerminalSession
write_to none bytes = none
write_to (some t) bytes = some (write t bytes)

unfoldable pub handle_action : SlateState → Action → SlateState
handle_action st a = record st { term = write_to st.term (key_bytes a) }

-- The bytes of a text, in UTF-8.
unfoldable pub handle_text : (List ℕ → List ℕ) → SlateState → List ℕ → SlateState
handle_text utf8 st s = record st { term = write_to st.term (utf8 s) }

-- What the display sends. A keymap that is not loaded is `none`; a change of the modifiers is what it
-- makes of the keymap's state. The last ones are the events that change nothing here.
pub data Event : Type 0 where
  configure_event : Event
  toplevel_configure : ℤ → ℤ → Event
  close_event : Event
  capabilities_event : Bool → Event
  keymap_event : Option Xkb → Event
  modifiers_event : (Xkb → Xkb) → Event
  key_pressed : ℕ → Event
  release_event : ℕ → Event
  other_event : Event

-- What the emulation reports to its listener; `other_report` stands for the reports that the listener
-- does not name.
pub data Report : Type 0 where
  wakeup title reset_title color_request bell child_exit clipboard_load clipboard_store : Report
  other_report : Report

-- `TerminalEvents::send_event`
unfoldable pub send_event : SlateState → Report → SlateState
send_event st other_report = st
send_event st _ = record st { dirty = suc st.dirty }

abbrev pub update : (Xkb → Xkb) → Option Xkb → Option Xkb
update change none = none
update change (some x) = some (change x)

abbrev pub screen_of : Option TerminalSession → Screen
screen_of none = empty_screen
screen_of (some t) = t.screen

-- `width as u32` of a positive `i32`.
abbrev pub asked : ℤ → ℕ → ℕ
asked v otherwise = if ltb_ℤ (pos 0) v then pos_part v else otherwise

-- What other code decides. `utf8` gives the bytes of a text.
pub record Outside : Type 0 where
  pub utf8 : List ℕ → List ℕ
  pub is_control : ℕ → Bool
  pub reflow : ℕ → ℕ → Screen → Screen
  pub pty : ℕ → Bool
  pub memory : ℕ → ℕ → Bool

-- The two threads: a turn of the loop, for which `blocking_dispatch` waits until the display sends
-- something, and the screen that the shell's output leaves, with what is reported of it. A dispatch
-- that fails ends the program with its error, and the steps with it.
pub data Step : Type 0 where
  turn : ℕ → Event → List Event → Step
  output : Screen → Report → Step

abbrev pub put_screen : Screen → Option TerminalSession → Option TerminalSession
put_screen s none = none
put_screen s (some t) = some (record t { screen = s })

module _ (o : Outside) where
  unfoldable pub ensure_term : SlateState → SlateState
  ensure_term st = elim st.term [
    | some t ↦ st
    | none ↦
        let (cols, rows) = cell_grid_for_window st.width st.height in
        let tried = record st { attempts = suc st.attempts } in
        if o.pty st.attempts
        then record tried { term = some (new_session cols rows); dirty = 0 }
        else tried
  ]

  -- `TerminalSession::resize`
  abbrev pub resize_term : ℕ → ℕ → TerminalSession → TerminalSession
  resize_term cols rows t = record t {
    size = window_size cols rows;
    columns = cols;
    lines = rows;
    screen = o.reflow cols rows t.screen;
  }

  -- The pool, where there is one or one can be had.
  unfoldable pub ensure_buffer : SlateState → Option ShmDoubleBuffer
  ensure_buffer st = elim st.buffer [
    | some pool ↦ some pool
    | none ↦
        let (pool, made) = Shm.new o.memory st.width st.height in
        elim made [ ok _ ↦ some pool | err e ↦ none ]
  ]

  -- From the drawing on. The blink is that of the time since the start, in milliseconds.
  unfoldable pub present : ℕ → SlateState → ShmDoubleBuffer → SlateState
  present elapsed st pool =
      let (drawn, result) = Shm.draw o.memory pool in
      let after = record st { buffer = some drawn } in
      let screen = screen_of st.term in
      elim result [
        | ok (some b) ↦
            if st.surface
            then record after {
              committed = some (record {
                buffer = b.number;
                w = b.w;
                h = b.h;
                calls =
                    paint o.is_control st.text_loaded screen.grid screen.cursor
                      (ltb 500 (elapsed % 1000));
              });
            }
            else after
        | _ ↦ after
      ]

  abbrev pub present_on : ℕ → SlateState → Option ShmDoubleBuffer → SlateState
  present_on elapsed st none = st
  present_on elapsed st (some pool) = present elapsed st pool

  unfoldable pub redraw : ℕ → SlateState → SlateState
  redraw elapsed st =
      let started = ensure_term st in
      let shown = present_on elapsed started (ensure_buffer started) in
      if st.configured then shown else st

  abbrev pub resize_buffer : ℕ → ℕ → Option ShmDoubleBuffer → Option ShmDoubleBuffer
  resize_buffer w h none = none
  resize_buffer w h (some pool) = some (Shm.resize o.memory pool w h).0

  abbrev pub resize_session : ℕ → ℕ → Option TerminalSession → Option TerminalSession
  resize_session w h none = none
  resize_session w h (some t) =
      some (resize_term (cell_grid_for_window w h).0 (cell_grid_for_window w h).1 t)

  -- A new size that the display asks for; it is not drawn before the next configure event.
  unfoldable pub configure_toplevel : SlateState → ℤ → ℤ → SlateState
  configure_toplevel st width height =
      let new_w = asked width default_w in
      let new_h = asked height default_h in
      if not (new_w == st.width) || not (new_h == st.height)
      then record st {
        width = new_w;
        height = new_h;
        buffer = resize_buffer new_w new_h st.buffer;
        term = resize_session new_w new_h st.term;
      }
      else st

  abbrev pub release : ℕ → Option ShmDoubleBuffer → Option ShmDoubleBuffer
  release n none = none
  release n (some pool) = some (Shm.mark_released o.memory pool n)

  abbrev pub handle_symbol : SlateState → KeySymbol → SlateState
  handle_symbol st (action a) = handle_action st a
  handle_symbol st (text s) = handle_text o.utf8 st s
  handle_symbol st nothing = st

  unfoldable pub event : ℕ → SlateState → Event → SlateState
  event elapsed st configure_event = redraw elapsed (record st { configured = true })
  event elapsed st (toplevel_configure width height) = configure_toplevel st width height
  event elapsed st close_event = record st { should_close = true }
  event elapsed st (capabilities_event keyboard) = record st { keyboard = st.keyboard || keyboard }
  event elapsed st (keymap_event none) = st
  event elapsed st (keymap_event (some x)) = record st { keymap = some x }
  event elapsed st (modifiers_event change) = record st { keymap = update change st.keymap }
  event elapsed st (key_pressed key) = handle_symbol st (process_key st.keymap key)
  event elapsed st (release_event n) = record st { buffer = release n st.buffer }
  event elapsed st other_event = st

  -- What one call of `blocking_dispatch` hands over.
  unfoldable pub dispatch_all : ℕ → SlateState → List Event → SlateState
  dispatch_all elapsed st [] = st
  dispatch_all elapsed st (e ∷ es) = dispatch_all elapsed (event elapsed st e) es

  -- The rest of the body of the loop: all notifications are taken, and the screen is drawn if there
  -- were any.
  unfoldable pub drain : ℕ → SlateState → SlateState
  drain elapsed st = if st.dirty == 0 then st else redraw elapsed (record st { dirty = 0 })

  -- A closed terminal stays as it is. A report comes from a shell only.
  unfoldable pub step : SlateState → Step → SlateState
  step st (turn elapsed e es) =
      let next = drain elapsed (dispatch_all elapsed st (e ∷ es)) in
      if st.should_close then st else next
  step st (output s report) = elim st.term [
    | none ↦ st
    | some t ↦ send_event (record st { term = put_screen s st.term }) report
  ]

  unfoldable pub run : SlateState → List Step → SlateState
  run st [] = st
  run st (s ∷ steps) = run (step st s) steps
