-- ===== src/Workspace/Moving.antt =====
-- The bookkeeping of a move to another workspace.
use nullxesos.Prelude.{
  ℕ, ◌≤◌, ◌<◌, ◌≡◌, refl, ◌∙◌, ◌⊎◌, inl, inr, ◌≢◌, ◌||◌, Option, none, some, List, arith, leb, ◌==◌,
  Bool-cases, Option-cases, set, get_elem?, length-set, get_elem?-set_self, get_elem?-set_ne,
  get_elem?-set, get_elem?-lt, if◌then◌else◌,
}
use nullxesos.Workspace.{Manager, focused, plan_move_focused}
use nullxesos.Workspace.Invariant.{IsValid}

-- A planned move from `m.active` to `target`: the identifier changes slots, and nothing else moves.
pub record Planned (m : Manager) (target id : ℕ) (after : Manager) : Type 0 where
  pub in_range : target < m.count
  pub elsewhere : target ≢ m.active
  pub was_focused : focused m ≡ some id
  pub source_cleared : get_elem? after.focused m.active ≡ some none
  pub target_set : get_elem? after.focused target ≡ some (some id)
  pub each_slot :
      (i : ℕ)
      → get_elem? after.focused i ≡ (
          if i == target
          then some (some id)
          else if i == m.active
          then some none
          else get_elem? m.focused i)
  pub same_active : after.active ≡ m.active
  pub same_count : after.count ≡ m.count

-- Why a move is refused.
abbrev pub Refuses : Manager → ℕ → Type 0
Refuses m target = (m.count ≤ target) ⊎ (target ≡ m.active) ⊎ (focused m ≡ none)

abbrev moved : Manager → ℕ → ℕ → Manager
moved m target id = record m { focused = set (set m.focused m.active none) target (some id) }

move_Planned :
    (m : Manager) (target id : ℕ)
    → IsValid m
    → target < m.count
    → target ≢ m.active
    → focused m ≡ some id
    → Planned m target id (moved m target id)
move_Planned m target id v h ne e = record {
  in_range = h;
  elsewhere = ne;
  was_focused = e;
  source_cleared =
      get_elem?-set_ne cleared target m.active (some id) ne
      ∙ get_elem?-set_self m.focused m.active none (omega arith);
  target_set =
      get_elem?-set_self cleared target (some id)
        (omega (arith, length-set m.focused m.active none));
  each_slot = λ i. ground (
    arith,
    get_elem?-set cleared target i (some id),
    get_elem?-set m.focused m.active i none,
    length-set m.focused m.active none,
    get_elem?-lt m.focused m.active,
    get_elem?-lt m.focused target,
  );
  same_active = refl;
  same_count = refl;
}
  where
    cleared : List (Option ℕ)
    cleared = set m.focused m.active none

-- Of a valid manager, `plan_move_focused` either refuses, for one of the three reasons, and changes
-- nothing; or it returns the active index, the target and the focused identifier, and moves that
-- identifier from the active slot to the target's, with every other slot as it was.
pub plan_move_focused_lem :
    (m : Manager) (target : ℕ)
    → IsValid m
    → (Refuses m target × (plan_move_focused m target ≡ (m, none)))
      ⊎ ((id : ℕ) × ((plan_move_focused m target).1 ≡ some (m.active, target, id))
          × Planned m target id (plan_move_focused m target).0)
unfolding plan_move_focused
plan_move_focused_lem m target v = elim (Bool-cases (leb m.count target || target == m.active)) [
  | inl bad ↦ inl (ground arith, rw bad)
  | inr good ↦ elim (Option-cases (focused m)) [
    | inl unfocused ↦ inl (inr (inr unfocused), rw (good, unfocused))
    | inr (id, e) ↦ inr (
      id,
      rw (good, e),
      rw (good, e) (move_Planned m target id v (ground arith) (ground arith) e),
    )
  ]
]
