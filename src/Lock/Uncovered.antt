-- ===== src/Lock/Uncovered.antt =====
-- What the lock screen of crates/nx-lock/src/state.rs covers, with the globals that its `run` binds.
use nullxesos.Prelude.{ℕ, ◌≡◌, Bool, true, false, []}
use nullxesos.Lock.{Password, LockState, locked_event, mode_event, Step, dispatch}

-- The steps of a program that has bound no `wl_output`.
abbrev pub Comes : Step → Type 0
Comes (dispatch (mode_event output w h)) = ⊥
Comes _ = Unit

-- The compositor confirms the lock.
abbrev pub confirms : Step → Bool
confirms (dispatch locked_event) = true
confirms _ = false

module _ (accepts : Password → Bool) (can_draw : ℕ → Bool) where
  -- No output is known, and the lock is confirmed or not.
  abbrev pub Is : Bool → LockState → Type 0
  Is locked st = (st.outputs ≡ []) × (st.locked ≡ locked)
