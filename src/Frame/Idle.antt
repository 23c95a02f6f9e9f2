-- ===== src/Frame/Idle.antt =====
-- The idle tracker: crates/frame/src/idle.rs. Instants are counted in nanoseconds; `elapsed` stops at
-- 0, as that of Rust does. The lock around the state is held through each operation.
pub mod Once
mod Tests
use nullxesos.Prelude.{
  ℕ, ◌-◌, ◌*◌, Bool, true, false, not, ◌&&◌, List, [], ◌∷◌, ltb, leb, if◌then◌else◌,
}
use nullxesos.Frame.Config.{IdleConfig}

pub record Inner : Type 0 where
  pub last_activity : ℕ
  pub cfg : IdleConfig
  pub dimmed : Bool
  pub locked_pending : Bool

pub record IdleActions : Type 0 where
  pub dim : Bool
  pub lock : Bool
  pub suspend : Bool

unfoldable pub new : IdleConfig → ℕ → Inner
new cfg now = record { last_activity = now; cfg = cfg; dimmed = false; locked_pending = false }

unfoldable pub touch : Inner → ℕ → Inner
touch g now = record g { last_activity = now; dimmed = false; locked_pending = false }

unfoldable pub update_config : Inner → IdleConfig → Inner
update_config g cfg = record g { cfg = cfg }

-- `ms > 0 && elapsed >= Duration::from_millis(ms)`
abbrev pub past : ℕ → ℕ → Bool
past ms elapsed = ltb 0 ms && leb (ms * 1000000) elapsed

unfoldable pub tick : Inner → ℕ → Inner × IdleActions
tick g now =
    let elapsed = now - g.last_activity in
    let dim = past g.cfg.dim_ms elapsed && not g.dimmed in
    let lock = past g.cfg.lock_ms elapsed && not g.locked_pending in
    (
      record g {
        dimmed = if dim then true else g.dimmed;
        locked_pending = if lock then true else g.locked_pending;
      },
      record { dim = dim; lock = lock; suspend = past g.cfg.suspend_ms elapsed },
    )

-- The actions of a row of ticks with no input between them.
unfoldable pub ticks : Inner → List ℕ → List IdleActions
ticks g [] = []
ticks g (now ∷ nows) = let (g', actions) = tick g now in actions ∷ ticks g' nows
