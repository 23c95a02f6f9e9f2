-- ===== src/Frame/Coherence.antt =====
-- The whole compositor: what its handlers do one after the other, and what they keep.
use nullxesos.Prelude.{
  ℕ, ◌-◌, ◌≡◌, refl, sym, subst, Bool, true, Option, none, some, List, [], ◌∷◌, arith, length,
  length-set, length-replicate, Option-cases, inl, inr,
}
use nullxesos.Workspace
use nullxesos.Workspace.{Manager, clamp_count}
use nullxesos.Workspace.Invariant.{
  IsValid, new-IsValid, switch_to-IsValid, switch_next-IsValid, switch_prev-IsValid,
  plan_move_focused-IsValid,
}
use nullxesos.Ipc.{Request, switch_workspace}
use nullxesos.Ipc
use nullxesos.Frame.Config.{FrameConfig}
use nullxesos.Frame.Platform.{Platform, Window, WlSurface, Point}
use nullxesos.Frame.State.{State, new, IsCoherent, update_space}
use nullxesos.Frame.Toplevel.{new_toplevel, unmap_first, toplevel_destroyed, grab_motion}
use nullxesos.Frame.Keybind.{
  KeySyms, move_window_between_workspaces, move_focused, close_focused_window, shortcut,
  handle_keybind,
}
use nullxesos.Frame.Lock.{lock, unlock, new_surface}
use nullxesos.Frame.Input.{
  InputEvent, key, button, pressed, press_at, handle_pointer_button, key_filter, handle_keyboard,
  process_input_event,
}
use nullxesos.Frame.Server.{handle_request_on_main}

module _ (p : Platform) where
  -- What the main loop dispatches. A signal of crates/frame/src/signals.rs notes the shutdown.
  pub data Op : Type 0 where
    appear : Window → Op
    vanish : WlSurface → Op
    drag : Window → Point → Op
    input : InputEvent → Op
    lock_session unlock_session signal : Op
    lock_surface : WlSurface → Op
    ask : FrameConfig p.F64 → Request → Op

  module _ (k : KeySyms) where
    unfoldable pub apply : State p → Op → State p
    apply st (appear w) = new_toplevel p st w
    apply st (vanish wl) = toplevel_destroyed p st wl
    apply st (drag w loc) = grab_motion p st w loc
    apply st (input e) = (process_input_event p k st e).0
    apply st lock_session = lock p st
    apply st unlock_session = unlock p st
    apply st signal = record st { shutdown = true }
    apply st (lock_surface s) = new_surface p st s
    apply st (ask loaded req) = (handle_request_on_main p st loaded req).0

    unfoldable pub run : State p → List Op → State p
    unfolding apply
    run st [] = st
    run st (op ∷ ops) = run (apply st op) ops

  length-update_space :
      (spaces : List p.Space) (i : ℕ) (f : p.Space → p.Space)
      → length (update_space p spaces i f) ≡ length spaces
  length-update_space spaces i f = grind (arith, length-set)

  pub move_window_keeps :
      (st : State p) (src target id : ℕ)
      → (length (move_window_between_workspaces p st src target id).spaces ≡ length st.spaces)
        × ((move_window_between_workspaces p st src target id).mgr ≡ st.mgr)
  unfolding move_window_between_workspaces
  move_window_keeps st src target id = grind (arith, length-update_space, length-set)

  length-unmap_first :
      (wl : WlSurface) (spaces : List p.Space) → length (unmap_first p wl spaces).0 ≡ length spaces
  unfolding unmap_first
  length-unmap_first wl [] = refl
  length-unmap_first wl (s ∷ spaces) = ground (arith, length-unmap_first wl spaces)

  new-IsCoherent : (config : FrameConfig p.F64) → IsCoherent p (new p config)
  unfolding new Workspace.new
  new-IsCoherent config = record {
    manager = new-IsValid config.workspace.count;
    one_space_each = length-replicate (clamp_count config.workspace.count) p.empty;
  }

  new_toplevel-IsCoherent :
      (st : State p) (w : Window) → IsCoherent p st → IsCoherent p (new_toplevel p st w)
  unfolding new_toplevel
  new_toplevel-IsCoherent st w c = grind (arith, length-set)

  toplevel_destroyed-IsCoherent :
      (st : State p) (wl : WlSurface) → IsCoherent p st → IsCoherent p (toplevel_destroyed p st wl)
  unfolding toplevel_destroyed
  toplevel_destroyed-IsCoherent st wl c = grind (arith, length-set, length-unmap_first wl st.spaces)

  grab_motion-IsCoherent :
      (st : State p) (w : Window) (loc : Point)
      → IsCoherent p st
      → IsCoherent p (grab_motion p st w loc)
  unfolding grab_motion
  grab_motion-IsCoherent st w loc c = grind (arith, length-set)

  press_at-IsCoherent :
      (st : State p) (loc : Point) → IsCoherent p st → IsCoherent p (press_at p st loc)
  unfolding press_at
  press_at-IsCoherent st loc c = grind (arith, length-set)

  unlock-IsCoherent : (st : State p) → IsCoherent p st → IsCoherent p (unlock p st)
  unfolding unlock
  unlock-IsCoherent st c = ground arith

  lock-IsCoherent : (st : State p) → IsCoherent p st → IsCoherent p (lock p st)
  unfolding lock
  lock-IsCoherent st c = ground arith

  new_surface-IsCoherent :
      (st : State p) (s : WlSurface) → IsCoherent p st → IsCoherent p (new_surface p st s)
  unfolding new_surface
  new_surface-IsCoherent st s c = ground arith

  -- A move starts from a manager that is valid, and touches the spaces and the plan alone.
  move_planned-IsCoherent :
      (st : State p) (mgr' : Manager) (src target id : ℕ)
      → IsValid mgr'
      → mgr'.count ≡ st.mgr.count
      → IsCoherent p st
      → IsCoherent p (move_window_between_workspaces p (record st { mgr = mgr' }) src target id)
  move_planned-IsCoherent st mgr' src target id v e c =
      ground (arith, move_window_keeps (record st { mgr = mgr' }) src target id)

  count-plan : (m : Manager) (target : ℕ) → (Workspace.plan_move_focused m target).0.count ≡ m.count
  unfolding Workspace.plan_move_focused
  count-plan m target = ground arith

  count-switch_to : (m : Manager) (idx : ℕ) → (Workspace.switch_to m idx).0.count ≡ m.count
  unfolding Workspace.switch_to
  count-switch_to m idx = ground arith

  move_focused-IsCoherent :
      (st : State p) (target : ℕ) → IsCoherent p st → IsCoherent p (move_focused p st target)
  unfolding move_focused
  move_focused-IsCoherent st target c =
      elim (Option-cases (Workspace.plan_move_focused st.mgr target).1) [
        | inl e ↦ ground (
          arith,
          e,
          plan_move_focused-IsValid {m = st.mgr} target c.manager,
          count-plan st.mgr target,
        )
        | inr ((src, tgt, id), e) ↦ ground (
          arith,
          e,
          move_planned-IsCoherent st (Workspace.plan_move_focused st.mgr target).0 src tgt id
              (plan_move_focused-IsValid {m = st.mgr} target c.manager) (count-plan st.mgr target)
              c,
        )
      ]

  set_mgr-IsCoherent :
      (st : State p) (mgr' : Manager)
      → IsValid mgr'
      → mgr'.count ≡ st.mgr.count
      → IsCoherent p st
      → IsCoherent p (record st { mgr = mgr' })
  set_mgr-IsCoherent st mgr' v e c = ground arith

  count-switches :
      (m : Manager) (idx : ℕ) (wrap : Bool)
      → ((Workspace.switch_to m idx).0.count ≡ m.count)
        × ((Workspace.switch_next m wrap).0.count ≡ m.count)
        × ((Workspace.switch_prev m wrap).0.count ≡ m.count)
  unfolding Workspace.switch_to Workspace.switch_next Workspace.switch_prev
  count-switches m idx wrap = ground arith

  close_focused_window-IsCoherent :
      (st : State p) → IsCoherent p st → IsCoherent p (close_focused_window p st)
  unfolding close_focused_window
  close_focused_window-IsCoherent st c = ground arith

  abbrev Kept : Option (State p) → Type 0
  Kept none = Unit
  Kept (some st) = IsCoherent p st

  shortcut-Kept :
      (k : KeySyms) (st : State p) (shift : Bool) (raw : ℕ)
      → IsCoherent p st
      → Kept (shortcut p k st shift raw)
  unfolding shortcut
  shortcut-Kept k st shift raw c =
      let idx = raw - k.key_1 in
      let wrap = st.config.workspace.wrap in
      let counts = count-switches st.mgr idx wrap in
      ground (
        arith,
        move_focused-IsCoherent st idx c,
        close_focused_window-IsCoherent st c,
        set_mgr-IsCoherent st _ (switch_to-IsValid idx c.manager) counts.0 c,
        set_mgr-IsCoherent st _ (switch_next-IsValid wrap c.manager) counts.1 c,
        set_mgr-IsCoherent st _ (switch_prev-IsValid wrap c.manager) counts.2 c,
      )

  input-IsCoherent :
      (k : KeySyms) (st : State p) (e : InputEvent)
      → IsCoherent p st
      → IsCoherent p (process_input_event p k st e).0
  unfolding process_input_event handle_keyboard key_filter handle_keybind handle_pointer_button
  input-IsCoherent k st (key ks mods raw) c = ground (arith, shortcut-Kept k st mods.shift raw c)
  input-IsCoherent k st (button pressed loc) c = ground (arith, press_at-IsCoherent st loc c)
  input-IsCoherent k st _ c = ground arith

  -- The request and the shortcut move the focused window in the same way.
  pub request-move_focused :
      (st : State p) (loaded : FrameConfig p.F64) (target : ℕ)
      → (handle_request_on_main p st loaded (Ipc.move_focused target)).0 ≡ move_focused p st target
  unfolding handle_request_on_main move_focused
  request-move_focused st loaded target =
      elim (Option-cases (Workspace.plan_move_focused st.mgr target).1) [
        | inl e ↦ ground (arith, e)
        | inr ((src, tgt, id), e) ↦ ground (arith, e)
      ]

  request-IsCoherent :
      (st : State p) (loaded : FrameConfig p.F64) (req : Request)
      → IsCoherent p st
      → IsCoherent p (handle_request_on_main p st loaded req).0
  unfolding handle_request_on_main
  request-IsCoherent st loaded (Ipc.switch_workspace idx) c =
      set_mgr-IsCoherent st _ (switch_to-IsValid idx c.manager) (count-switches st.mgr idx true).0 c
  request-IsCoherent st loaded (Ipc.move_focused target) c =
      subst (IsCoherent p) (sym (request-move_focused st loaded target))
        (move_focused-IsCoherent st target c)
  request-IsCoherent st loaded _ c = ground arith

  apply-IsCoherent :
      (k : KeySyms) (st : State p) (op : Op) → IsCoherent p st → IsCoherent p (apply k st op)
  unfolding apply
  apply-IsCoherent k st (appear w) c = new_toplevel-IsCoherent st w c
  apply-IsCoherent k st (vanish wl) c = toplevel_destroyed-IsCoherent st wl c
  apply-IsCoherent k st (drag w loc) c = grab_motion-IsCoherent st w loc c
  apply-IsCoherent k st (input e) c = input-IsCoherent k st e c
  apply-IsCoherent k st lock_session c = lock-IsCoherent st c
  apply-IsCoherent k st unlock_session c = unlock-IsCoherent st c
  apply-IsCoherent k st signal c = ground arith
  apply-IsCoherent k st (lock_surface s) c = new_surface-IsCoherent st s c
  apply-IsCoherent k st (ask loaded req) c = request-IsCoherent st loaded req c

  run_from-IsCoherent :
      (k : KeySyms) (st : State p) (ops : List Op) → IsCoherent p st → IsCoherent p (run k st ops)
  unfolding run
  run_from-IsCoherent k st [] c = c
  run_from-IsCoherent k st (op ∷ ops) c =
      run_from-IsCoherent k (apply k st op) ops (apply-IsCoherent k st op c)

  -- From a new compositor, whatever windows, input events, lock calls, requests and signals come,
  -- in any order: the workspace index is valid and there is exactly one space for each workspace.
  pub run-IsCoherent :
      (k : KeySyms) (config : FrameConfig p.F64) (ops : List Op)
      → IsCoherent p (run k (new p config) ops)
  run-IsCoherent k config ops = run_from-IsCoherent k (new p config) ops (new-IsCoherent config)
