-- ===== src/Frame/Tests/Locks.antt =====
-- The compositor under a session lock.
use nullxesos.Prelude.{◌≡◌, refl, ◌⊎◌, true, none, some, List, [], ◌∷◌}
use nullxesos.Frame.State.{State, is_locked}
use nullxesos.Frame.Keybind.{forward}
use nullxesos.Frame.Lock.{lock}
use nullxesos.Frame.Input.{process_input_event, key, button, pressed, to_keyboard, dropped}
use nullxesos.Frame.Coherence.{Op, input, lock_surface, run}
use nullxesos.Frame.Locked.{locked_input_inert, lock_protects}
use nullxesos.Frame.Tests.{desk, keysyms, surface, at, busy}

abbrev held : State desk
held = record busy { lock = some []; keyboard_focus = none }

locked_click_dropped :
    ((process_input_event desk keysyms held (button pressed (at 6))).0 ≡ held)
    × (((process_input_event desk keysyms held (button pressed (at 6))).1 ≡ to_keyboard forward)
        ⊎ ((process_input_event desk keysyms held (button pressed (at 6))).1 ≡ dropped))
locked_click_dropped = locked_input_inert desk keysyms held (button pressed (at 6)) refl

abbrev attempts : List (Op desk)
attempts =
    input (key pressed (record { logo = true; shift = true }) 50)
    ∷ lock_surface (surface 9)
    ∷ input (button pressed (at 6))
    ∷ []

lock_protects_example :
    let st' = run desk keysyms (lock desk busy) attempts in
    (st'.spaces ≡ busy.spaces)
    × (st'.mgr ≡ busy.mgr)
    × (st'.keyboard_focus ≡ none)
    × (st'.effects ≡ [])
    × (is_locked desk st' ≡ true)
lock_protects_example = lock_protects desk keysyms busy attempts refl refl (tt, (tt, (tt, tt)))
