-- ===== src/Frame/Lock.antt =====
-- The server side of the session lock: crates/frame/src/handlers/session_lock.rs. The mode that is
-- sent to a lock surface does not come back into the compositor's state.
use nullxesos.Prelude.{Option, none, some, [], ◌∷◌, ◌++◌, last?}
use nullxesos.Frame.Platform.{Platform, Window, WlSurface}
use nullxesos.Frame.State.{State, active_space, focus_keyboard}

module _ (p : Platform) where
  -- A lock client asks for the lock. While it is held, another request is dropped.
  unfoldable pub lock : State p → State p
  unfolding focus_keyboard
  lock st = elim st.lock [
    | some _ ↦ st
    | none ↦ focus_keyboard p (record st { lock = some [] }) none
  ]

  abbrev pub surface_of : Option Window → Option WlSurface
  surface_of none = none
  surface_of (some w) = w.wl_surface

  -- The keyboard goes to the topmost window of the active workspace, if there is one.
  unfoldable pub unlock : State p → State p
  unfolding focus_keyboard active_space
  unlock st =
      let st' : State p = record st { lock = none } in
      elim (surface_of (last? (p.elements (active_space p st')))) [
        | none ↦ st'
        | some top ↦ focus_keyboard p st' (some top)
      ]

  unfoldable pub new_surface : State p → WlSurface → State p
  new_surface st surface = elim st.lock [
    | none ↦ st
    | some surfaces ↦ record st { lock = some (surfaces ++ (surface ∷ [])) }
  ]
