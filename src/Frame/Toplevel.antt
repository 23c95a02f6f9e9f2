-- ===== src/Frame/Toplevel.antt =====
-- Windows that come, go and are dragged: crates/frame/src/handlers/xdg_shell.rs and
-- crates/frame/src/input/move_grab.rs. Coordinates of a screen are far inside the range of `i32`, so
-- the sum of the first position is not wrapped.
use nullxesos.Prelude.{
  ℕ, ◌/◌, Bool, true, false, Option, none, some, List, [], ◌∷◌, ◌==◌, if◌then◌else◌, find,
}
use nullxesos.Prelude.Int.{pos, ◌+ℤ◌}
use nullxesos.Workspace
use nullxesos.Frame.Platform.{Platform, Window, WlSurface, Point, Rectangle}
use nullxesos.Frame.State.{State, active_mut, set_active_space}

-- `window_id`: the protocol number of the surface, or 0.
abbrev pub window_id : Window → ℕ
window_id w = elim w.wl_surface [ none ↦ 0 | some s ↦ s.protocol_id ]

-- `w.wl_surface().as_deref() == Some(wl)`
abbrev pub owns : WlSurface → Window → Bool
owns wl w = elim w.wl_surface [ none ↦ false | some s ↦ s.object == wl.object ]

abbrev pub default_geometry : Rectangle
default_geometry = record { loc = (pos 0, pos 0); w = 1920; h = 1080 }

module _ (p : Platform) where
  -- The upper quarter of the primary output, as it is mapped in this space.
  abbrev pub first_location : State p → p.Space → Point
  first_location st space =
      let geo : Rectangle = elim st.primary_output [
        | none ↦ default_geometry
        | some o ↦ elim (p.output_geometry space o) [ none ↦ default_geometry | some g ↦ g ]
      ] in
      (geo.loc.0 +ℤ pos (geo.w / 4), geo.loc.1 +ℤ pos (geo.h / 4))

  unfoldable pub new_toplevel : State p → Window → State p
  unfolding set_active_space Workspace.set_focus
  new_toplevel st window =
      let space = active_mut p st in
      let st' = set_active_space p st (p.map_element space window (first_location st space) true) in
      record st' { mgr = Workspace.set_focus st.mgr (some (window_id window)) }

  -- The loop over all spaces: the first window of this surface is unmapped, and its identifier
  -- returned.
  unfoldable pub unmap_first : WlSurface → List p.Space → List p.Space × Option ℕ
  unmap_first wl [] = ([], none)
  unmap_first wl (space ∷ spaces) =
      let (rest, found) = unmap_first wl spaces in
      elim (find (owns wl) (p.elements space)) [
        | none ↦ (space ∷ rest, found)
        | some w ↦ (p.unmap_elem space w ∷ spaces, some (window_id w))
      ]

  abbrev same_id : Option ℕ → ℕ → Bool
  same_id none id = false
  same_id (some a) id = a == id

  unfoldable pub toplevel_destroyed : State p → WlSurface → State p
  unfolding unmap_first Workspace.set_focus Workspace.focused
  toplevel_destroyed st wl =
      let (spaces', found) = unmap_first wl st.spaces in
      let st' : State p = record st { spaces = spaces' } in
      elim found [
        | none ↦ st'
        | some id ↦
            if same_id (Workspace.focused st.mgr) id
            then record st' { mgr = Workspace.set_focus st.mgr none }
            else st'
      ]

  -- `MoveSurfaceGrab::motion`: the dragged window is mapped at its new place in the active space.
  unfoldable pub grab_motion : State p → Window → Point → State p
  unfolding set_active_space
  grab_motion st window new_loc =
      set_active_space p st (p.map_element (active_mut p st) window new_loc true)
