-- ===== src/Launcher/Selection.antt =====
-- The selected entry of the launcher.
use nullxesos.Prelude.{◌-◌, ◌≤◌, ◌<◌, ◌≡◌, ◌⊎◌, Option, List, [], ◌∷◌, arith, length}
use nullxesos.Prelude.Int.{ℤ}
use nullxesos.Keymap.{Action, action, text, nothing}
use nullxesos.Launcher.Apps.{Text, AppEntry}
use nullxesos.Launcher.{
  Query, LauncherState, new, Event, configure_event, closed_event, key_pressed, results,
  launch_selected, handle_action, handle_text, event, run, dispatch_all,
}

module _ (fuzzy_match : Text → Query → Option ℤ) (apps : List AppEntry) where
  -- The first entry is selected, or another one that is there.
  abbrev pub InRange : LauncherState → Type 0
  InRange st = st.selected ≤ length (results fuzzy_match apps st) - 1

  action-InRange :
      (st : LauncherState) (a : Action) → InRange st → InRange (handle_action fuzzy_match apps st a)
  unfolding handle_action launch_selected
  action-InRange st a v = ground arith

  event-InRange :
      (st : LauncherState) (e : Event) → InRange st → InRange (event fuzzy_match apps st e)
  unfolding event handle_text
  event-InRange st configure_event v = v
  event-InRange st closed_event v = v
  event-InRange st (key_pressed (action a)) v = action-InRange st a v
  event-InRange st (key_pressed (text s)) v = omega arith
  event-InRange st (key_pressed nothing) v = v

  dispatch_all-InRange :
      (st : LauncherState) (es : List Event)
      → InRange st
      → InRange (dispatch_all fuzzy_match apps st es)
  dispatch_all-InRange st [] v = v
  dispatch_all-InRange st (e ∷ es) v =
      dispatch_all-InRange (event fuzzy_match apps st e) es (event-InRange st e v)

  run-InRange :
      (st : LauncherState) (batches : List (List Event))
      → InRange st
      → InRange (run fuzzy_match apps st batches)
  unfolding run
  run-InRange st [] v = v
  run-InRange st (es ∷ batches) v =
      let next = dispatch_all-InRange st es v in
      ground (arith, v, run-InRange (dispatch_all fuzzy_match apps st es) batches next)

  -- Whatever keys come: the selected entry is one of those that are found, or nothing is found and
  -- the selection is 0.
  pub selection_in_range :
      (batches : List (List Event))
      → let st = run fuzzy_match apps new batches in
        (st.selected < length (results fuzzy_match apps st)) ⊎ (st.selected ≡ 0)
  selection_in_range batches = ground (arith, run-InRange new batches (omega arith))
