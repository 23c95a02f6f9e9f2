-- ===== src/Frame/Stale.antt =====
-- Where the record of the focused window and the windows themselves come apart.
use nullxesos.Prelude.{
  ℕ, ◌<◌, ◌≡◌, ◌≢◌, true, none, some, List, ◌∷◌, arith, ◌==◌, get_elem?, get_elem?-set,
  get_elem?-lt, find, ==_refl,
}
use nullxesos.Workspace
use nullxesos.Ipc.{Response, ok}
use nullxesos.Ipc
use nullxesos.Frame.Config.{FrameConfig}
use nullxesos.Frame.Platform.{Platform, Lawful, Window, WlSurface, Point}
use nullxesos.Frame.State.{State, IsCoherent, send_close, active_mut, mut_index}
use nullxesos.Frame.Toplevel.{window_id, unmap_first, toplevel_destroyed, grab_motion}
use nullxesos.Frame.Keybind.{matches_id, move_window_between_workspaces, close_focused_window}
use nullxesos.Frame.Input.{press_at}
use nullxesos.Frame.Server.{handle_request_on_main}
use nullxesos.Frame.Windows.{in_space, has-map}

module _ (p : Platform) where
  -- The state after the destruction of a surface, a switch to the workspace where it was, and the
  -- request to move the focused window.
  abbrev ghost_request : State p → FrameConfig p.F64 → WlSurface → ℕ → ℕ → State p × Response
  ghost_request st loaded wl i target =
      let destroyed = toplevel_destroyed p st wl in
      let switched = (handle_request_on_main p destroyed loaded (Ipc.switch_workspace i)).0 in
      handle_request_on_main p switched loaded (Ipc.move_focused target)

  destroyed_elsewhere :
      (st : State p) (wl : WlSurface) (spaces' : List p.Space) (id : ℕ)
      → unmap_first p wl st.spaces ≡ (spaces', some id)
      → Workspace.focused st.mgr ≢ some id
      → toplevel_destroyed p st wl ≡ record st { spaces = spaces' }
  unfolding toplevel_destroyed
  destroyed_elsewhere st wl spaces' id e ne = ground arith

  -- In a coherent compositor, the window that is focused in the workspace `i` is destroyed while
  -- another workspace is active, where another identifier is focused, and no other window of `i`
  -- has its identifier. Then, after a switch to `i`, the request to move the focused window to a
  -- further workspace is answered with success, and no window moves.
  pub ghost_move_succeeds :
      (st : State p) (loaded : FrameConfig p.F64) (wl : WlSurface) (i target id : ℕ)
      (spaces' : List p.Space) (s : p.Space)
      → IsCoherent p st
      → i < st.mgr.count
      → i ≢ st.mgr.active
      → target < st.mgr.count
      → target ≢ i
      → get_elem? st.mgr.focused i ≡ some (some id)
      → Workspace.focused st.mgr ≢ some id
      → unmap_first p wl st.spaces ≡ (spaces', some id)
      → get_elem? spaces' i ≡ some s
      → find (matches_id id) (p.elements s) ≡ none
      → ((ghost_request st loaded wl i target).1 ≡ ok none)
        × ((ghost_request st loaded wl i target).0.spaces ≡ spaces')
  unfolding handle_request_on_main Workspace.switch_to Workspace.plan_move_focused
      move_window_between_workspaces
  ghost_move_succeeds st loaded wl i target id spaces' s c hi ne ht nt slot other gone hs
        none_left =
      rw (destroyed_elsewhere st wl spaces' id gone other) (ground arith, ground arith)

  -- A click, on a seat with a keyboard, hands the keyboard to the window under the pointer; but
  -- Super+Q then asks the window to close that was recorded as focused before, if it is still in
  -- the active workspace.
  pub click_does_not_refocus :
      (st : State p) (loc : Point) (w u : Window) (id : ℕ) (s : p.Space)
      → st.keyboard ≡ true
      → p.element_under (active_mut p st) loc ≡ some w
      → Workspace.focused st.mgr ≡ some id
      → get_elem? (press_at p st loc).spaces st.mgr.active ≡ some s
      → find (λ v. window_id v == id) (p.elements s) ≡ some u
      → ((press_at p st loc).keyboard_focus ≡ w.wl_surface)
        × ((close_focused_window p (press_at p st loc)).effects ≡ send_close u ∷ st.effects)
  unfolding press_at close_focused_window
  click_does_not_refocus st loc w u id s kbd under focus hs hu = ground arith

  -- In a coherent compositor, under the laws of the window library, dragging a window that is in
  -- another workspace than the active one maps it in the active one and leaves it where it was: it
  -- is then in both.
  pub drag_duplicates :
      (law : Lawful p) (st : State p) (w : Window) (loc : Point) (from here : ℕ)
      → IsCoherent p st
      → st.mgr.active ≡ here
      → from ≢ here
      → in_space p st from w ≡ true
      → (in_space p (grab_motion p st w loc) from w ≡ true)
        × (in_space p (grab_motion p st w loc) here w ≡ true)
  unfolding grab_motion
  drag_duplicates law st w loc from here c e ne was =
      let m = mut_index p st.spaces st.mgr.active in
      let at : m ≡ here = omega (arith, e) in
      ground (
        arith,
        at,
        get_elem?-set st.spaces m from (p.map_element (active_mut p st) w loc true),
        get_elem?-set st.spaces m here (p.map_element (active_mut p st) w loc true),
        has-map p law (active_mut p st) w w loc true,
        ==_refl w.handle,
        get_elem?-lt st.spaces here,
      )
