-- ===== src/Workspace.antt =====
-- The workspace index of the compositor: `WorkspaceManager` of crates/frame/src/workspace.rs.
-- A method that takes `&mut self` returns the new manager beside its result. A write to `focused`
-- out of range, where the source would panic, changes nothing here; `Invariant.IsValid` rules it out.
pub mod Invariant
pub mod Switching
pub mod Moving
mod Tests
use nullxesos.Prelude.{
  ℕ, ◌+◌, ◌-◌, Bool, true, false, ◌||◌, Option, none, some, List, [], ◌∷◌, ltb, leb, ◌==◌,
  if◌then◌else◌, get_elem?, set, replicate,
}

pub record Manager : Type 0 where
  pub count : ℕ
  pub active : ℕ
  pub focused : List (Option ℕ)

-- `count.clamp(1, 9)`
abbrev pub clamp_count : ℕ → ℕ
clamp_count n = if ltb n 1 then 1 else if ltb 9 n then 9 else n

unfoldable pub new : ℕ → Manager
new count = record {
  count = clamp_count count;
  active = 0;
  focused = replicate (clamp_count count) none;
}

unfoldable pub switch_to : Manager → ℕ → Manager × Bool
switch_to m idx =
    if leb m.count idx || idx == m.active then (m, false) else (record m { active = idx }, true)

unfoldable pub switch_next : Manager → Bool → Manager × Bool
unfolding switch_to
switch_next m wrap =
    if ltb (m.active + 1) m.count
    then switch_to m (m.active + 1)
    else if wrap
    then switch_to m 0
    else (m, false)

-- `active - 1` and `count - 1` are taken at positive numbers only, or refused by `switch_to`.
unfoldable pub switch_prev : Manager → Bool → Manager × Bool
unfolding switch_to
switch_prev m wrap =
    if ltb 0 m.active
    then switch_to m (m.active - 1)
    else if wrap
    then switch_to m (m.count - 1)
    else (m, false)

-- `.copied().flatten()`
abbrev pub flatten_slot : Option (Option ℕ) → Option ℕ
flatten_slot none = none
flatten_slot (some slot) = slot

unfoldable pub focused : Manager → Option ℕ
focused m = flatten_slot (get_elem? m.focused m.active)

unfoldable pub set_focus : Manager → Option ℕ → Manager
set_focus m id = record m { focused = set m.focused m.active id }

-- `Some((src, target, id))` announces a move; the caller remaps the window.
unfoldable pub plan_move_focused : Manager → ℕ → Manager × Option (ℕ × ℕ × ℕ)
unfolding focused
plan_move_focused m target =
    if leb m.count target || target == m.active then (m, none) else elim (focused m) [
      | none ↦ (m, none)
      | some id ↦ (
        record m { focused = set (set m.focused m.active none) target (some id) },
        some (m.active, target, id),
      )
    ]

-- The calls that the compositor makes, in the order in which they come.
pub data Op : Type 0 where
  to : ℕ → Op
  next prev : Bool → Op
  focus : Option ℕ → Op
  plan : ℕ → Op

unfoldable pub apply : Manager → Op → Manager
unfolding switch_to switch_next switch_prev set_focus plan_move_focused
apply m (to idx) = (switch_to m idx).0
apply m (next wrap) = (switch_next m wrap).0
apply m (prev wrap) = (switch_prev m wrap).0
apply m (focus id) = set_focus m id
apply m (plan target) = (plan_move_focused m target).0

unfoldable pub run : Manager → List Op → Manager
unfolding apply
run m [] = m
run m (op ∷ ops) = run (apply m op) ops
