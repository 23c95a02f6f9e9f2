-- ===== src/Slate/Tests.antt =====
-- Runs of the terminal, and the instances of its theorems.
use nullxesos.Prelude.{if◌then◌else◌, ◌≡◌, refl, true, false, none, some, List, [], ◌∷◌, ◌==◌}
use nullxesos.Prelude.Int.{pos}
use nullxesos.Keymap.{up, Xkb, process_key}
use nullxesos.Slate.Render.{Screen, cell_grid_for_window, named, foreground, background}
use nullxesos.Slate.{
  Outside, SlateState, TerminalSession, initial, Event, configure_event, toplevel_configure,
  close_event, keymap_event, key_pressed, other_event, turn, output, child_exit, dispatch_all, run,
  key_bytes, new_session,
}
use nullxesos.Shm
use nullxesos.Slate.Typing.{typed_lem, typed}
use nullxesos.Slate.Waiting.{run-should_close}

-- Texts are ASCII, nothing is reflown, and every resource is there.
abbrev outside : Outside
outside = record {
  utf8 = λ s. s;
  is_control = λ c. c == 27;
  reflow = λ cols rows s. s;
  pty = λ n. true;
  memory = λ n bytes. true;
}

-- The key 103 is the arrow up, and every other one a text of its number.
abbrev xkb : Xkb
xkb = record {
  keysyms = λ a. elim a [ up ↦ 65362 ∷ [] | _ ↦ [] ];
  is_control = λ c. c == 27;
  key_get_one_sym = λ k. if k == 111 then 65362 else k;
  key_get_utf8 = λ k. k ∷ [];
}

abbrev one_cell : Screen
one_cell = record {
  grid =
      (record { c = 97; fg = named foreground; bg = named background; underline = false } ∷ [])
      ∷ [];
  cursor = (1, 0);
}

-- The window appears, a size is asked for, a keymap comes, and two keys are pressed.
abbrev start : List Event
start =
    toplevel_configure (pos 640) (pos 400)
    ∷ configure_event
    ∷ keymap_event (some xkb)
    ∷ key_pressed 103
    ∷ key_pressed 30
    ∷ []

abbrev shown : SlateState
shown = run outside (initial true) (turn 0 other_event start ∷ [])

typed_bytes : typed outside none start ≡ (27 ∷ 91 ∷ 65 ∷ []) ∷ (38 ∷ []) ∷ []
unfolding typed process_key key_bytes
typed_bytes = refl

grid_of_window : cell_grid_for_window 640 400 ≡ (78, 21)
unfolding cell_grid_for_window
grid_of_window = refl

abbrev session : TerminalSession
session = new_session 98 26

abbrev running : SlateState
running = record (initial true) { term = some session; keymap = some xkb }

typed_lem_example :
    (t : TerminalSession) × ((dispatch_all outside 0 running start).term ≡ some t)
    × (t.written ≡ typed outside (some xkb) start)
typed_lem_example = typed_lem outside 0 start running session refl

run-should_close_example :
    (run outside running (output one_cell child_exit ∷ turn 0 close_event [] ∷ [])).should_close
    ≡ true
run-should_close_example =
    run-should_close outside (output one_cell child_exit ∷ turn 0 close_event [] ∷ []) running

-- One buffer is free, and the other one is held.
abbrev pool : Shm.ShmDoubleBuffer
pool = record {
  buffers =
      record { number = 0; bytes = 1600000; released = false; w = 800; h = 500 }
      ∷ record { number = 1; bytes = 1600000; released = true; w = 800; h = 500 }
      ∷ [];
  w = 800;
  h = 500;
  next = 2;
}

abbrev open_window : SlateState
open_window = record running { configured = true; buffer = some pool }
