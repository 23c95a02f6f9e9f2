-- ===== src/Frame/Tests/Moves.antt =====
-- Windows that move between workspaces.
use nullxesos.Prelude.{◌≡◌, refl, true, false, none, some, [], ◌∷◌, arith, get_elem?}
use nullxesos.Ipc.{ok}
use nullxesos.Ipc
use nullxesos.Workspace
use nullxesos.Frame.State.{IsCoherent, new}
use nullxesos.Frame.Toplevel.{unmap_first, toplevel_destroyed}
use nullxesos.Frame.Keybind.{move_window_between_workspaces, handle_keybind, intercept}
use nullxesos.Frame.Input.{process_input_event, key, pressed, released}
use nullxesos.Frame.Server.{handle_request_on_main}
use nullxesos.Frame.Coherence.{appear, vanish, drag, ask, run, run-IsCoherent}
use nullxesos.Frame.Windows.{in_space, move_window_lem}
use nullxesos.Frame.Shortcuts.{shift_digit_moves, right_tap_moves_two}
use nullxesos.Frame.Stale.{ghost_move_succeeds}
use nullxesos.Frame.Tests.{desk, desk-Lawful, keysyms, surface, window, config, at, busy}

busy-IsCoherent : IsCoherent desk busy
busy-IsCoherent = ground arith

run-IsCoherent_example : IsCoherent desk (
    run desk keysyms (new desk config) (
      appear (window 1)
      ∷ ask config (Ipc.move_focused 2)
      ∷ drag (window 1) (at 9)
      ∷ vanish (surface 1)
      ∷ []))
run-IsCoherent_example = run-IsCoherent desk keysyms config (
    appear (window 1)
    ∷ ask config (Ipc.move_focused 2)
    ∷ drag (window 1) (at 9)
    ∷ vanish (surface 1)
    ∷ [])

move_window_lem_example :
    in_space desk (move_window_between_workspaces desk busy 0 2 12) 2 (window 2) ≡ true
move_window_lem_example =
    move_window_lem desk busy 0 2 12 ((window 1, at 5) ∷ (window 2, at 6) ∷ [])
      ((window 3, at 7) ∷ []) (window 2) (ground arith) refl refl refl desk-Lawful 2 (window 2)

shift_digit_moves_example :
    let (st', verdict) =
      handle_keybind desk keysyms busy (record { logo = true; shift = true }) 50 in
    (verdict ≡ intercept)
    × (in_space desk st' 1 (window 1) ≡ true)
    × (in_space desk st' 0 (window 1) ≡ false)
    × (get_elem? st'.mgr.focused 1 ≡ some (some 11))
    × (get_elem? st'.mgr.focused 0 ≡ some none)
    × (st'.mgr.active ≡ 0)
unfolding Workspace.focused
shift_digit_moves_example =
    shift_digit_moves desk keysyms desk-Lawful busy 1 11 ((window 1, at 5) ∷ (window 2, at 6) ∷ [])
      (window 1) busy-IsCoherent refl (omega arith) (ground arith) refl refl refl

right_tap_moves_two_example :
    let after_press =
      (process_input_event desk keysyms busy
        (key pressed (record { logo = true; shift = false }) 65363)).0 in
    (process_input_event desk keysyms after_press
      (key released (record { logo = true; shift = false }) 65363)).0
    ≡ record busy { mgr = record (busy.mgr) { active = 2 } }
right_tap_moves_two_example =
    right_tap_moves_two desk keysyms busy busy-IsCoherent
      (record { unlocked = refl; running = refl; keyboard = refl }) refl refl

ghost_move_succeeds_example :
    let destroyed = toplevel_destroyed desk busy (surface 3) in
    let switched = (handle_request_on_main desk destroyed config (Ipc.switch_workspace 2)).0 in
    ((handle_request_on_main desk switched config (Ipc.move_focused 1)).1 ≡ ok none)
    × ((handle_request_on_main desk switched config (Ipc.move_focused 1)).0.spaces
        ≡ ((window 1, at 5) ∷ (window 2, at 6) ∷ []) ∷ [] ∷ [] ∷ [])
unfolding unmap_first Workspace.focused
ghost_move_succeeds_example =
    ghost_move_succeeds desk busy config (surface 3) 2 1 13
      (((window 1, at 5) ∷ (window 2, at 6) ∷ []) ∷ [] ∷ [] ∷ []) [] busy-IsCoherent (omega arith)
      (ground arith) (omega arith) (ground arith) refl (ground arith) refl refl refl
