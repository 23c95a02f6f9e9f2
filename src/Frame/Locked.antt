-- ===== src/Frame/Locked.antt =====
-- What input can do while the session lock is held.
use nullxesos.Prelude.{◌≡◌, ◌∙◌, ◌⊎◌, true, none, some, List, [], ◌∷◌, ◌++◌, arith, All, last?}
use mathlib.Core.List.{append-nil, append_assoc}
use nullxesos.Frame.Platform.{Platform, WlSurface}
use nullxesos.Frame.State.{State, is_locked, active_space}
use nullxesos.Frame.Keybind.{KeySyms, forward}
use nullxesos.Frame.Lock.{lock, unlock, new_surface, surface_of}
use nullxesos.Frame.Input.{
  InputEvent, key, button, to_keyboard, dropped, key_filter, handle_keyboard, process_input_event,
}
use nullxesos.Frame.Coherence.{Op, input, lock_session, lock_surface, signal, apply, run}

module _ (p : Platform) (k : KeySyms) where
  -- While the session is locked no input event changes the compositor's state, no shortcut takes a
  -- key, and nothing is passed on to the pointer.
  pub locked_input_inert :
      (st : State p) (e : InputEvent)
      → is_locked p st ≡ true
      → ((process_input_event p k st e).0 ≡ st)
        × (((process_input_event p k st e).1 ≡ to_keyboard forward)
            ⊎ ((process_input_event p k st e).1 ≡ dropped))
  unfolding process_input_event handle_keyboard key_filter
  locked_input_inert st (key ks mods raw) h = ground arith
  locked_input_inert st (button bs loc) h = ground arith
  locked_input_inert st _ h = ground arith

  -- Operations that do not come from the user's session: input, lock calls of lock clients, their
  -- surfaces, and signals.
  abbrev pub IsGuarded : Op p → Type 0
  IsGuarded (input e) = Unit
  IsGuarded lock_session = Unit
  IsGuarded (lock_surface s) = Unit
  IsGuarded signal = Unit
  IsGuarded _ = ⊥

  -- What the lock protects.
  pub record Same (st st' : State p) : Type 0 where
    pub spaces : st'.spaces ≡ st.spaces
    pub mgr : st'.mgr ≡ st.mgr
    pub keyboard_focus : st'.keyboard_focus ≡ st.keyboard_focus
    pub effects : st'.effects ≡ st.effects
    pub still_locked : is_locked p st' ≡ true

  apply-Same :
      (st : State p) (op : Op p) → is_locked p st ≡ true → IsGuarded op → Same st (apply p k st op)
  unfolding apply lock new_surface
  apply-Same st (input e) h g = ground (arith, locked_input_inert st e h)
  apply-Same st lock_session h g = ground arith
  apply-Same st (lock_surface s) h g = ground arith
  apply-Same st signal h g = ground arith
  apply-Same st _ h g = absurd g

  run-Same :
      (st : State p) (ops : List (Op p))
      → is_locked p st ≡ true
      → All IsGuarded ops
      → Same st (run p k st ops)
  unfolding run
  run-Same st [] h g = ground arith
  run-Same st (op ∷ ops) h g =
      let one = apply-Same st op h g.0 in
      let rest = run-Same (apply p k st op) ops one.still_locked g.1 in
      record {
        spaces = rest.spaces ∙ one.spaces;
        mgr = rest.mgr ∙ one.mgr;
        keyboard_focus = rest.keyboard_focus ∙ one.keyboard_focus;
        effects = rest.effects ∙ one.effects;
        still_locked = rest.still_locked;
      }

  -- After a lock of a session that was not locked, on a seat with a keyboard, whatever input,
  -- further lock requests, lock surfaces and signals come: the windows and the workspaces stay as
  -- they were, nothing is spawned or closed, no surface has the keyboard, and the session is still
  -- locked. (Windows that come and go, unlocking and requests are not among these operations.)
  pub lock_protects :
      (st : State p) (ops : List (Op p))
      → st.lock ≡ none
      → st.keyboard ≡ true
      → All IsGuarded ops
      → let st' = run p k (lock p st) ops in
        (st'.spaces ≡ st.spaces)
        × (st'.mgr ≡ st.mgr)
        × (st'.keyboard_focus ≡ none)
        × (st'.effects ≡ st.effects)
        × (is_locked p st' ≡ true)
  unfolding lock
  lock_protects st ops h kbd g = ground (arith, run-Same (lock p st) ops (ground arith) g)

module _ (p : Platform) where
  -- The surfaces that a lock client creates, in order.
  abbrev pub new_surfaces : State p → List WlSurface → State p
  new_surfaces st [] = st
  new_surfaces st (s ∷ ss) = new_surfaces (new_surface p st s) ss

  new_surfaces_lem :
      (st : State p) (held ss : List WlSurface)
      → st.lock ≡ some held
      → new_surfaces st ss ≡ record st { lock = some (held ++ ss) }
  unfolding new_surface
  new_surfaces_lem st held [] h = ground (arith, append-nil held)
  new_surfaces_lem st held (s ∷ ss) h = ground (
    arith,
    new_surfaces_lem (new_surface p st s) (held ++ (s ∷ [])) ss,
    append_assoc held (s ∷ []) ss,
  )

  -- A lock of a session that was not locked, on a seat with a keyboard, with any surfaces, and
  -- then the unlock leave the session as it was, but for the keyboard: that goes to the topmost
  -- window of the active workspace, if there is one with a surface.
  pub unlock-lock :
      (st : State p) (ss : List WlSurface)
      → st.lock ≡ none
      → st.keyboard ≡ true
      → unlock p (new_surfaces (lock p st) ss)
        ≡ record st { keyboard_focus = surface_of p (last? (p.elements (active_space p st))) }
  unfolding unlock lock active_space
  unlock-lock st ss h kbd = ground (arith, new_surfaces_lem (lock p st) [] ss)
