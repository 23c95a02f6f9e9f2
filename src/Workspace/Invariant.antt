-- ===== src/Workspace/Invariant.antt =====
-- What holds of the workspace index between two calls.
use nullxesos.Prelude.{
  ℕ, ◌≤◌, ◌<◌, ◌≡◌, Bool, Option, none, List, [], ◌∷◌, arith, length, length-set, length-replicate,
}
use nullxesos.Workspace.{
  Manager, Op, to, next, prev, focus, plan, clamp_count, new, switch_to, switch_next, switch_prev,
  set_focus, plan_move_focused, apply, run,
}

-- The active index and every slot are in range, and there are 1 to 9 workspaces.
pub record IsValid (m : Manager) : Type 0 where
  pub some_workspace : 1 ≤ m.count
  pub at_most_nine : m.count ≤ 9
  pub active_in : m.active < m.count
  pub one_slot_each : length m.focused ≡ m.count

pub new-IsValid : (n : ℕ) → IsValid (new n)
unfolding new
new-IsValid n = ground (arith, length-replicate {A = Option ℕ} (clamp_count n) none)

pub switch_to-IsValid : {m : Manager} (idx : ℕ) → IsValid m → IsValid (switch_to m idx).0
unfolding switch_to
switch_to-IsValid idx v = ground arith

pub switch_next-IsValid : {m : Manager} (wrap : Bool) → IsValid m → IsValid (switch_next m wrap).0
unfolding switch_next
switch_next-IsValid wrap v = ground arith

pub switch_prev-IsValid : {m : Manager} (wrap : Bool) → IsValid m → IsValid (switch_prev m wrap).0
unfolding switch_prev
switch_prev-IsValid wrap v = ground arith

pub set_focus-IsValid : {m : Manager} (id : Option ℕ) → IsValid m → IsValid (set_focus m id)
unfolding set_focus
set_focus-IsValid {m} id v = ground (arith, length-set m.focused m.active id)

pub plan_move_focused-IsValid :
    {m : Manager} (target : ℕ) → IsValid m → IsValid (plan_move_focused m target).0
unfolding plan_move_focused
plan_move_focused-IsValid target v = grind (arith, length-set)

apply-IsValid : (m : Manager) (op : Op) → IsValid m → IsValid (apply m op)
unfolding apply
apply-IsValid m (to idx) v = switch_to-IsValid idx v
apply-IsValid m (next wrap) v = switch_next-IsValid wrap v
apply-IsValid m (prev wrap) v = switch_prev-IsValid wrap v
apply-IsValid m (focus id) v = set_focus-IsValid id v
apply-IsValid m (plan target) v = plan_move_focused-IsValid target v

run_from-IsValid : (m : Manager) (ops : List Op) → IsValid m → IsValid (run m ops)
unfolding run
run_from-IsValid m [] v = v
run_from-IsValid m (op ∷ ops) v = run_from-IsValid (apply m op) ops (apply-IsValid m op v)

-- For every configured count and every sequence of calls on a new manager, there are 1 to 9
-- workspaces, the active index is below their number, and each has exactly one focus slot.
pub run-IsValid : (n : ℕ) (ops : List Op) → IsValid (run (new n) ops)
run-IsValid n ops = run_from-IsValid (new n) ops (new-IsValid n)
