-- ===== src/Frame/Xwm/Respawn.antt =====
-- How XWayland is started again after it has failed.
use nullxesos.Prelude.{
  ℕ, suc, ◌+◌, ◌≤◌, ◌≡◌, refl, Bool, true, false, List, [], ◌∷◌, arith, take, min, ltb, length,
  drop, ◌-◌, ◌∙◌, ◌||◌, zero,
}
use nullxesos.Frame.Xwm.{
  XwmState, XwaylandEvent, ready, exited, respawn_delays, new, start, schedule_respawn,
  handle_event, run,
}

-- A failure: Xwayland exits, or its window manager does not start.
abbrev pub failure : Bool → XwaylandEvent
failure true = exited
failure false = ready false

abbrev pub failures : List Bool → List XwaylandEvent
failures [] = []
failures (b ∷ bs) = failure b ∷ failures bs

-- `xs` in reverse, before `ys`.
abbrev pub reverse_onto : List ℕ → List ℕ → List ℕ
reverse_onto [] ys = ys
reverse_onto (x ∷ xs) ys = reverse_onto xs (x ∷ ys)

-- No delay was looked up past the end of the table, and at most three tries are counted.
pub record IsSane (s : XwmState) : Type 0 where
  pub no_panic : s.panicked ≡ false
  pub at_most_three : s.respawn_count ≤ 3

handle_event-IsSane : (s : XwmState) (e : XwaylandEvent) → IsSane s → IsSane (handle_event s e)
unfolding handle_event schedule_respawn start
handle_event-IsSane s e v = ground arith

handle_event-disabled :
    (s : XwmState) (e : XwaylandEvent)
    → s.disabled ≡ true
    → ((handle_event s e).disabled ≡ true) × ((handle_event s e).launches ≡ s.launches)
unfolding handle_event schedule_respawn start
handle_event-disabled s e d = ground arith

-- XWayland that is disabled stays disabled, and is not launched again.
pub disabled_stays :
    (s : XwmState) (es : List XwaylandEvent)
    → s.disabled ≡ true
    → ((run s es).disabled ≡ true) × ((run s es).launches ≡ s.launches)
unfolding run
disabled_stays s [] d = (d, refl)
disabled_stays s (e ∷ es) d =
    let step = handle_event-disabled s e d in
    let rest = disabled_stays (handle_event s e) es step.0 in (rest.0, rest.1 ∙ step.1)

run-IsSane_from : (s : XwmState) (es : List XwaylandEvent) → IsSane s → IsSane (run s es)
unfolding run
run-IsSane_from s [] v = v
run-IsSane_from s (e ∷ es) v = run-IsSane_from (handle_event s e) es (handle_event-IsSane s e v)

-- Whatever events come, no delay is looked up past the end of the table, and at most three tries are
-- counted.
pub run-IsSane : (es : List XwaylandEvent) → IsSane (run new es)
run-IsSane es = run-IsSane_from new es (record { no_panic = refl; at_most_three = omega arith })

-- One more failure after three.
fourth :
    (s : XwmState) (b : Bool)
    → s.respawn_count ≡ 3
    → ((handle_event s (failure b)).sleeps ≡ s.sleeps)
      × ((handle_event s (failure b)).launches ≡ s.launches)
      × ((handle_event s (failure b)).disabled ≡ true)
      × ((handle_event s (failure b)).respawn_count ≡ 3)
unfolding handle_event schedule_respawn
fourth s b h = ground arith

exhausted :
    (s : XwmState) (bs : List Bool)
    → s.respawn_count ≡ 3
    → ((run s (failures bs)).sleeps ≡ s.sleeps)
      × ((run s (failures bs)).launches ≡ s.launches)
      × ((run s (failures bs)).disabled ≡ (s.disabled || ltb 0 (length bs)))
unfolding run
exhausted s [] h = ground arith
exhausted s (b ∷ bs) h = ground (arith, fourth s b h, exhausted (handle_event s (failure b)) bs)

retries :
    (s : XwmState) (k : ℕ) (bs : List Bool)
    → s.disabled ≡ false
    → s.respawn_count ≡ k
    → k ≤ 3
    → ((run s (failures bs)).sleeps
        ≡ reverse_onto (take (length bs) (drop k respawn_delays)) s.sleeps)
      × ((run s (failures bs)).launches ≡ min (length bs) (3 - k) + s.launches)
      × ((run s (failures bs)).disabled ≡ ltb (3 - k) (length bs))
unfolding handle_event schedule_respawn start run
retries s k [] d c h = ground arith
retries s zero (b ∷ bs) d c h = ground (arith, retries (handle_event s (failure b)) 1 bs)
retries s (suc zero) (b ∷ bs) d c h = ground (arith, retries (handle_event s (failure b)) 2 bs)
retries s (suc (suc zero)) (b ∷ bs) d c h =
    ground (arith, retries (handle_event s (failure b)) 3 bs)
retries s (suc (suc (suc zero))) (b ∷ bs) d c h = ground (arith, exhausted s (b ∷ bs) c)
retries s (suc (suc (suc (suc k)))) (b ∷ bs) d c h = absurd (omega arith)

-- When XWayland has become ready and is not disabled, and then fails any number of times, in either
-- way, with no success between: it is started again after 1, 2 and 5 seconds, in this order, once for
-- each of the first three failures, and disabled by the fourth.
pub respawn_lem :
    (s : XwmState) (bs : List Bool)
    → s.disabled ≡ false
    → let after = run (handle_event s (ready true)) (failures bs) in
      (after.sleeps ≡ reverse_onto (take (length bs) respawn_delays) s.sleeps)
      × (after.launches ≡ min (length bs) 3 + s.launches)
      × (after.disabled ≡ ltb 3 (length bs))
unfolding handle_event
respawn_lem s bs d = retries (handle_event s (ready true)) 0 bs d refl (omega arith)
