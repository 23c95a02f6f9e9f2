-- ===== src/Frame/Keybind.antt =====
-- The keyboard shortcuts of the compositor: crates/frame/src/input/keybind.rs.
use nullxesos.Prelude.{
  ℕ, ◌-◌, Bool, true, false, ◌&&◌, ◌||◌, not, Option, none, some, leb, ◌==◌, if◌then◌else◌, find,
  get_elem?,
}
use nullxesos.Prelude.Int.{pos}
use nullxesos.Workspace
use nullxesos.Frame.Platform.{Platform, Window, Point}
use nullxesos.Frame.State.{State, spawn, send_close, update_space, emit}
use nullxesos.Frame.Toplevel.{window_id}

-- The keysyms that the code names: constants of smithay.
pub record KeySyms : Type 0 where
  pub key_1 : ℕ
  pub key_9 : ℕ
  pub key_right : ℕ
  pub key_left : ℕ
  pub key_q : ℕ
  pub key_upper_q : ℕ
  pub key_l : ℕ
  pub key_upper_l : ℕ
  pub key_return : ℕ
  pub key_kp_enter : ℕ
  pub key_super_l : ℕ
  pub key_super_r : ℕ

pub record Mods : Type 0 where
  pub logo : Bool
  pub shift : Bool

pub data FilterResult : Type 0 where
  forward intercept : FilterResult

-- The test of `find` in `move_window_between_workspaces`: a window with no surface does not match.
abbrev pub matches_id : ℕ → Window → Bool
matches_id id w = elim w.wl_surface [ none ↦ false | some s ↦ s.protocol_id == id ]

abbrev pub or_origin : Option Point → Point
or_origin none = (pos 0, pos 0)
or_origin (some loc) = loc

abbrev pub is_digit : KeySyms → ℕ → Bool
is_digit k raw = leb k.key_1 raw && leb raw k.key_9

module _ (p : Platform) where
  -- Between `src` and `target`, which differ, the window keeps its place on the screen.
  unfoldable pub move_window_between_workspaces : State p → ℕ → ℕ → ℕ → State p
  move_window_between_workspaces st src target id = elim (get_elem? st.spaces src) [
    | none ↦ st
    | some src_space ↦ elim (find (matches_id id) (p.elements src_space)) [
      | none ↦ st
      | some w ↦
          let loc = or_origin (p.element_location src_space w) in
          let taken = update_space p st.spaces src (λ s. p.unmap_elem s w) in
          record st { spaces = update_space p taken target (λ s. p.map_element s w loc true) }
    ]
  ]

  -- The window with the focused identifier is asked to close, if it is a toplevel (each is).
  unfoldable pub close_focused_window : State p → State p
  close_focused_window st = elim (Workspace.focused st.mgr) [
    | none ↦ st
    | some id ↦ elim (get_elem? st.spaces st.mgr.active) [
      | none ↦ st
      | some space ↦ elim (find (λ w. window_id w == id) (p.elements space)) [
        | none ↦ st
        | some w ↦ emit p st (send_close w)
      ]
    ]
  ]

  -- `plan_move_focused`, then the move itself.
  unfoldable pub move_focused : State p → ℕ → State p
  move_focused st idx =
      let (mgr', planned) = Workspace.plan_move_focused st.mgr idx in
      let st' : State p = record st { mgr = mgr' } in
      elim planned [
        | none ↦ st'
        | some (src, target, id) ↦ move_window_between_workspaces st' src target id
      ]

  -- The arms of the `match`; each of them intercepts but the last.
  unfoldable pub shortcut : KeySyms → State p → Bool → ℕ → Option (State p)
  shortcut k st shift_held raw =
      if is_digit k raw
      then some (
          if shift_held
          then move_focused st (raw - k.key_1)
          else record st { mgr = (Workspace.switch_to st.mgr (raw - k.key_1)).0 })
      else if raw == k.key_right
      then some (record st { mgr = (Workspace.switch_next st.mgr st.config.workspace.wrap).0 })
      else if raw == k.key_left
      then some (record st { mgr = (Workspace.switch_prev st.mgr st.config.workspace.wrap).0 })
      else if raw == k.key_q || raw == k.key_upper_q
      then some (close_focused_window st)
      else if raw == k.key_l || raw == k.key_upper_l
      then some (emit p st (spawn st.config.keybindings.lock_binary))
      else if raw == k.key_return || raw == k.key_kp_enter
      then some (emit p st (spawn "nullxes-slate"))
      else if raw == k.key_super_l || raw == k.key_super_r
      then some (emit p st (spawn st.config.keybindings.launcher_binary))
      else none

  unfoldable pub handle_keybind : KeySyms → State p → Mods → ℕ → State p × FilterResult
  handle_keybind k st mods raw =
      if not mods.logo then (st, forward) else elim (shortcut k st mods.shift raw) [
        | none ↦ (st, forward)
        | some st' ↦ (st', intercept)
      ]
