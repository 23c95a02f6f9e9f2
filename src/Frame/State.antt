-- ===== src/Frame/State.antt =====
-- The state of the compositor, as far as its own code reads and changes it:
-- `NullxesState` of crates/frame/src/state.rs and `Workspaces` of crates/frame/src/workspace.rs.
use nullxesos.Prelude.{
  ℕ, ◌-◌, ◌≡◌, Bool, true, false, String, Option, none, some, List, [], ◌∷◌, length, get_elem?, set,
  replicate, min, is_some,
}
use nullxesos.Workspace
use nullxesos.Workspace.{Manager, clamp_count}
use nullxesos.Workspace.Invariant.{IsValid}
use nullxesos.Frame.Config.{FrameConfig}
use nullxesos.Frame.Platform.{Platform, Window, WlSurface}

-- What the handlers ask of the outside, the newest first: a process to start, a window to close,
-- the main loop to stop.
pub data Effect : Type 0 where
  spawn : String → Effect
  send_close : Window → Effect
  stop_loop : Effect

module _ (p : Platform) where
  -- `lock` holds the surfaces of the session lock. `keyboard` and `pointer` say that the seat has one, and
  -- `keyboard_focus` is the surface that its keys go to.
  pub record State : Type 0 where
    pub spaces : List p.Space
    pub mgr : Manager
    pub primary_output : Option ℕ
    pub lock : Option (List WlSurface)
    pub xwm_ready : Bool
    pub config : FrameConfig p.F64
    pub shutdown : Bool
    pub keyboard : Bool
    pub pointer : Bool
    pub keyboard_focus : Option WlSurface
    pub effects : List Effect

  -- `Workspaces::new`
  abbrev pub new_spaces : ℕ → List p.Space
  new_spaces count = replicate (clamp_count count) p.empty

  -- `NullxesState::new`; `add_keyboard` and `add_pointer` of the backend follow it.
  unfoldable pub new : FrameConfig p.F64 → State
  new config = record {
    spaces = new_spaces config.workspace.count;
    mgr = Workspace.new config.workspace.count;
    primary_output = none;
    lock = none;
    xwm_ready = false;
    config = config;
    shutdown = false;
    keyboard = true;
    pointer = true;
    keyboard_focus = none;
    effects = [];
  }

  -- `Workspaces::active`: the space of this index, or the first. `p.empty` stands for the panic on a
  -- list with no space, which `new_spaces` never makes.
  abbrev pub space_or : Option p.Space → p.Space
  space_or none = p.empty
  space_or (some s) = s

  abbrev pub active_of : List p.Space → ℕ → p.Space
  active_of spaces idx = elim (get_elem? spaces idx) [
    | none ↦ space_or (get_elem? spaces 0)
    | some s ↦ s
  ]

  unfoldable pub active_space : State → p.Space
  active_space st = active_of st.spaces st.mgr.active

  -- The index that `Workspaces::active_mut` uses, and the space there.
  abbrev pub mut_index : List p.Space → ℕ → ℕ
  mut_index spaces idx = min idx (length spaces - 1)

  abbrev pub active_mut : State → p.Space
  active_mut st = space_or (get_elem? st.spaces (mut_index st.spaces st.mgr.active))

  -- A change of the active space through `active_mut`.
  unfoldable pub set_active_space : State → p.Space → State
  set_active_space st s = record st { spaces = set st.spaces (mut_index st.spaces st.mgr.active) s }

  -- `if let Some(space) = get_mut(idx) { f(space) }`
  abbrev pub update_space : List p.Space → ℕ → (p.Space → p.Space) → List p.Space
  update_space spaces idx f = elim (get_elem? spaces idx) [
    | none ↦ spaces
    | some s ↦ set spaces idx (f s)
  ]

  -- `if let Some(kbd) = seat.get_keyboard() { kbd.set_focus(..) }`
  unfoldable pub focus_keyboard : State → Option WlSurface → State
  focus_keyboard st surface = elim st.keyboard [
    | true ↦ record st { keyboard_focus = surface }
    | false ↦ st
  ]

  abbrev pub emit : State → Effect → State
  emit st e = record st { effects = e ∷ st.effects }

  abbrev pub is_locked : State → Bool
  is_locked st = is_some st.lock

  -- The index is valid and there is one space for each workspace.
  pub record IsCoherent (st : State) : Type 0 where
    pub manager : IsValid st.mgr
    pub one_space_each : length st.spaces ≡ st.mgr.count
