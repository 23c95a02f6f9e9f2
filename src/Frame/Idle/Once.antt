-- ===== src/Frame/Idle/Once.antt =====
-- How often the idle tracker acts between two inputs.
use nullxesos.Prelude.{
  ℕ, zero, suc, ◌+◌, ◌*◌, ◌-◌, ◌≡◌, refl, Bool, false, leb, List, [], ◌∷◌, arith, any,
  if◌then◌else◌,
}
use nullxesos.Frame.Idle.{Inner, IdleActions, touch, past, tick, ticks}

abbrev pub count : (IdleActions → Bool) → List IdleActions → ℕ
count f [] = 0
count f (a ∷ actions) = let rest = count f actions in if f a then suc rest else rest

-- The threshold of so many milliseconds lies at or before this instant; there is none at 0.
abbrev pub due : ℕ → ℕ → ℕ → Bool
due zero start now = false
due (suc ms) start now = leb (start + suc ms * 1000000) now

past-due : (ms start now : ℕ) → past ms (now - start) ≡ due ms start now
past-due zero start now = refl
past-due (suc ms) start now = ground arith

-- Whether some tick, and how many ticks, come when the threshold has passed since `start`.
abbrev pub reached : ℕ → ℕ → List ℕ → Bool
reached ms start nows = any (λ now. due ms start now) nows

abbrev pub times_due : ℕ → ℕ → List ℕ → ℕ
times_due ms start [] = 0
times_due ms start (now ∷ nows) =
    let rest = times_due ms start nows in if due ms start now then suc rest else rest

abbrev pub once : Bool → ℕ
once b = if b then 1 else 0

dims :
    (g : Inner) (nows : List ℕ)
    → count (λ a. a.dim) (ticks g nows)
      ≡ (if g.dimmed then 0 else once (reached g.cfg.dim_ms g.last_activity nows))
unfolding tick ticks
dims g [] = ground arith
dims g (now ∷ nows) =
    ground (arith, dims (tick g now).0 nows, past-due g.cfg.dim_ms g.last_activity now)

locks :
    (g : Inner) (nows : List ℕ)
    → count (λ a. a.lock) (ticks g nows)
      ≡ (if g.locked_pending then 0 else once (reached g.cfg.lock_ms g.last_activity nows))
unfolding tick ticks
locks g [] = ground arith
locks g (now ∷ nows) =
    ground (arith, locks (tick g now).0 nows, past-due g.cfg.lock_ms g.last_activity now)

suspends :
    (g : Inner) (nows : List ℕ)
    → count (λ a. a.suspend) (ticks g nows) ≡ times_due g.cfg.suspend_ms g.last_activity nows
unfolding tick ticks
suspends g [] = refl
suspends g (now ∷ nows) =
    ground (arith, suspends (tick g now).0 nows, past-due g.cfg.suspend_ms g.last_activity now)

-- From an input at the instant `t` on, whatever ticks follow before the next input: the session is
-- dimmed once if some tick comes `dim_ms` milliseconds after the input or later, and else never; it
-- is locked once or never in the same way; but it is suspended at every tick that comes `suspend_ms`
-- after the input or later. What is set to 0 milliseconds never happens.
pub acts_once :
    (g : Inner) (t : ℕ) (nows : List ℕ)
    → (count (λ a. a.dim) (ticks (touch g t) nows) ≡ once (reached g.cfg.dim_ms t nows))
      × (count (λ a. a.lock) (ticks (touch g t) nows) ≡ once (reached g.cfg.lock_ms t nows))
      × (count (λ a. a.suspend) (ticks (touch g t) nows) ≡ times_due g.cfg.suspend_ms t nows)
unfolding touch
acts_once g t nows = (dims (touch g t) nows, locks (touch g t) nows, suspends (touch g t) nows)
