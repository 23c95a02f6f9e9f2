-- ===== src/Frame/Idle/Tests.antt =====
-- Runs of the idle tracker.
use nullxesos.Prelude.{◌≡◌, [], ◌∷◌}
use nullxesos.Frame.Config.{IdleConfig}
use nullxesos.Frame.Idle.{new, touch, ticks}
use nullxesos.Frame.Idle.Once.{count, acts_once}

abbrev quick : IdleConfig
quick = record { dim_ms = 2; lock_ms = 4; suspend_ms = 6 }

acts_once_example :
    (count (λ a. a.dim) (ticks (touch (new quick 0) 1000000) (3000000 ∷ 8000000 ∷ 9000000 ∷ []))
      ≡ 1)
    × (count (λ a. a.lock) (ticks (touch (new quick 0) 1000000) (3000000 ∷ 8000000 ∷ 9000000 ∷ []))
        ≡ 1)
    × (count
          (λ a. a.suspend)
          (ticks (touch (new quick 0) 1000000) (3000000 ∷ 8000000 ∷ 9000000 ∷ []))
        ≡ 2)
unfolding new
acts_once_example = acts_once (new quick 0) 1000000 (3000000 ∷ 8000000 ∷ 9000000 ∷ [])
