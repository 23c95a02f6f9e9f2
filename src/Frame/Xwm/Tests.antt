-- ===== src/Frame/Xwm/Tests.antt =====
-- Runs of the XWayland life cycle.
use nullxesos.Prelude.{◌≡◌, refl, true, false, [], ◌∷◌}
use nullxesos.Frame.Xwm.{XwmState, ready, exited, new, run, handle_event}
use nullxesos.Frame.Xwm.Respawn.{IsSane, failures, run-IsSane, disabled_stays, respawn_lem}

abbrev off : XwmState
off = record new { disabled = true; respawn_count = 3; launches = 4 }

failures_counted : IsSane (run new (exited ∷ ready false ∷ exited ∷ exited ∷ exited ∷ []))
failures_counted = run-IsSane (exited ∷ ready false ∷ exited ∷ exited ∷ exited ∷ [])

disabled_ignores_ready :
    ((run off (ready true ∷ exited ∷ [])).disabled ≡ true)
    × ((run off (ready true ∷ exited ∷ [])).launches ≡ 4)
disabled_ignores_ready = disabled_stays off (ready true ∷ exited ∷ []) refl

respawn_lem_example :
    let after = run (handle_event new (ready true)) (failures (true ∷ false ∷ true ∷ true ∷ [])) in
    (after.sleeps ≡ 5 ∷ 2 ∷ 1 ∷ []) × (after.launches ≡ 3) × (after.disabled ≡ true)
respawn_lem_example = respawn_lem new (true ∷ false ∷ true ∷ true ∷ []) refl
