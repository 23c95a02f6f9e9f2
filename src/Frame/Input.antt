-- ===== src/Frame/Input.antt =====
-- Input events: crates/frame/src/input/mod.rs. An event carries the modifiers and the keysym with
-- which smithay's `KeyboardHandle::input` calls the filter, for the press and for the release of a
-- key alike. What is passed on to smithay's pointer is the verdict.
use nullxesos.Prelude.{ℕ, Bool, true, false, none, some, if◌then◌else◌}
use nullxesos.Frame.Platform.{Platform, Point}
use nullxesos.Frame.State.{State, active_mut, set_active_space, focus_keyboard, is_locked}
use nullxesos.Frame.Keybind.{KeySyms, Mods, FilterResult, forward, handle_keybind}

pub data KeyState : Type 0 where
  pressed released : KeyState

pub data InputEvent : Type 0 where
  key : KeyState → Mods → ℕ → InputEvent
  motion motion_absolute axis : InputEvent
  button : KeyState → Point → InputEvent
  other : InputEvent

-- What smithay gets of the event: a key with the filter's verdict, an event for the pointer, or
-- nothing.
pub data Passed : Type 0 where
  to_keyboard : FilterResult → Passed
  to_pointer : Passed
  dropped : Passed

module _ (p : Platform) where
  -- A press raises the window under the pointer and gives it the keyboard, or takes the keyboard
  -- from all windows.
  unfoldable pub press_at : State p → Point → State p
  unfolding set_active_space focus_keyboard
  press_at st loc = elim (p.element_under (active_mut p st) loc) [
    | none ↦ focus_keyboard p st none
    | some w ↦
        focus_keyboard p (set_active_space p st (p.raise_element (active_mut p st) w true))
          w.wl_surface
  ]

  unfoldable pub handle_pointer_button : State p → KeyState → Point → State p × Passed
  handle_pointer_button st pressed loc =
      if st.pointer then (press_at st loc, to_pointer) else (st, dropped)
  handle_pointer_button st released loc = (st, if st.pointer then to_pointer else dropped)

module _ (p : Platform) (k : KeySyms) where
  -- The filter in `handle_keyboard`. It does not look at the state of the key.
  unfoldable pub key_filter : State p → Bool → Mods → ℕ → State p × FilterResult
  key_filter st locked mods raw =
      if locked
      then (st, forward)
      else if st.shutdown
      then (st, forward)
      else if is_locked p st
      then (st, forward)
      else handle_keybind p k st mods raw

  unfoldable pub handle_keyboard : State p → KeyState → Mods → ℕ → Bool → State p × Passed
  handle_keyboard st _ mods raw locked =
      let (st', verdict) = key_filter st locked mods raw in
      elim st.keyboard [ false ↦ (st, dropped) | true ↦ (st', to_keyboard verdict) ]

  unfoldable pub process_input_event : State p → InputEvent → State p × Passed
  process_input_event st (key ks mods raw) = handle_keyboard st ks mods raw (is_locked p st)
  process_input_event st motion =
      (st, if is_locked p st then dropped else if st.pointer then to_pointer else dropped)
  process_input_event st motion_absolute =
      (st, if is_locked p st then dropped else if st.pointer then to_pointer else dropped)
  process_input_event st axis =
      (st, if is_locked p st then dropped else if st.pointer then to_pointer else dropped)
  process_input_event st (button bs loc) =
      if is_locked p st then (st, dropped) else handle_pointer_button p st bs loc
  process_input_event st other = (st, dropped)
