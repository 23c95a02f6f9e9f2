-- ===== src/Workspace/Tests.antt =====
-- Runs of the workspace index, after the unit tests of crates/frame/src/workspace.rs.
use nullxesos.Prelude.{ℕ, ◌≡◌, refl, ◌⊎◌, ◌↔◌, ◌≢◌, true, false, some, none, [], ◌∷◌, arith}
use nullxesos.Workspace.{
  Manager, to, next, focus, plan, new, switch_to, switch_next, focused, set_focus,
  plan_move_focused, run,
}
use nullxesos.Workspace.Invariant.{IsValid, run-IsValid}
use nullxesos.Workspace.Switching.{switches_report_change, focus_survives_switch}
use nullxesos.Workspace.Moving.{Refuses, Planned, plan_move_focused_lem}

abbrev three : Manager
three = record { count = 3; active = 2; focused = none ∷ some 7 ∷ some 5 ∷ [] }

three-IsValid : IsValid three
three-IsValid = omega arith

switch_and_wrap :
    ((switch_to (new 3) 2).0.active ≡ 2)
    × ((switch_next three false).1 ≡ false)
    × ((switch_next three true).0.active ≡ 0)
unfolding new switch_to switch_next
switch_and_wrap = (refl, refl, refl)

move_plan_returns_indices : (plan_move_focused (set_focus (new 2) (some 7)) 1).1 ≡ some (0, 1, 7)
unfolding new set_focus plan_move_focused
move_plan_returns_indices = refl

out_of_range_move_is_noop : focused (run (new 2) (focus (some 1) ∷ plan 5 ∷ [])) ≡ some 1
unfolding new run focused
out_of_range_move_is_noop = refl

run-IsValid_example : IsValid (run (new 12) (focus (some 4) ∷ next true ∷ plan 0 ∷ to 8 ∷ []))
run-IsValid_example = run-IsValid 12 (focus (some 4) ∷ next true ∷ plan 0 ∷ to 8 ∷ [])

switch_reports_change : ((switch_to three 1).1 ≡ true) ↔ ((switch_to three 1).0.active ≢ 2)
switch_reports_change = (switches_report_change three 1 true).0

focus_survives_switch_example :
    focused (switch_to (set_focus (switch_to (set_focus three (some 9)) 0).0 none) 2).0 ≡ some 9
focus_survives_switch_example =
    focus_survives_switch three (some 9) none 0 three-IsValid (omega arith) (omega arith)

plan_move_focused_lem_example :
    (Refuses three 0 × (plan_move_focused three 0 ≡ (three, none)))
    ⊎ ((id : ℕ) × ((plan_move_focused three 0).1 ≡ some (2, 0, id))
        × Planned three 0 id (plan_move_focused three 0).0)
plan_move_focused_lem_example = plan_move_focused_lem three 0 three-IsValid
