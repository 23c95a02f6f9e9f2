-- ===== src/Workspace/Switching.antt =====
-- Switching between workspaces.
use native.Mathlib.Decide.{dec_lt}
use native.Mathlib.Nat.{mod-eq_of_lt, mod-add-mod, mod_self, add-zero, add-mod_right}
use nullxesos.Prelude.{
  ℕ, zero, suc, ◌+◌, ◌%◌, ◌<◌, ◌≡◌, ◌∙◌, ap, ◌↔◌, ◌≢◌, Bool, true, Option, arith, set,
  get_elem?-set_self, get_elem?-set_ne,
}
use nullxesos.Workspace.{Manager, switch_to, switch_next, switch_prev, focused, set_focus}
use nullxesos.Workspace.Invariant.{IsValid}

-- Each of the three switches reports `true` exactly when it changed the active index, and leaves
-- the number of workspaces and the focus slots as they were.
pub switches_report_change :
    (m : Manager) (idx : ℕ) (wrap : Bool)
    → (((switch_to m idx).1 ≡ true) ↔ ((switch_to m idx).0.active ≢ m.active))
      × (((switch_next m wrap).1 ≡ true) ↔ ((switch_next m wrap).0.active ≢ m.active))
      × (((switch_prev m wrap).1 ≡ true) ↔ ((switch_prev m wrap).0.active ≢ m.active))
      × ((switch_to m idx).0 ≡ record m { active = (switch_to m idx).0.active })
      × ((switch_next m wrap).0 ≡ record m { active = (switch_next m wrap).0.active })
      × ((switch_prev m wrap).0 ≡ record m { active = (switch_prev m wrap).0.active })
unfolding switch_next switch_prev
switches_report_change m idx wrap = ground arith

-- `k` presses of Super+Right with wrapping on.
unfoldable pub next_times : ℕ → Manager → Manager
unfolding switch_next
next_times zero m = m
next_times (suc k) m = next_times k (switch_next m true).0

next_active_mod :
    (m : Manager) → IsValid m → (switch_next m true).0.active ≡ (m.active + 1) % m.count
unfolding switch_next
next_active_mod m v = elim (dec_lt (m.active + 1) m.count) [
  | yes p ↦ ground (arith, mod-eq_of_lt p)
  | no p ↦
      let e : m.active + 1 ≡ m.count = omega arith in
      ground (arith, e, ap (λ k. k % m.count) e, mod_self m.count)
]

next_step :
    (m : Manager)
    → IsValid m
    → (switch_next m true).0 ≡ record m { active = (m.active + 1) % m.count }
next_step m v =
    (switches_report_change m 0 true).4 ∙ ap (λ a. record m { active = a }) (next_active_mod m v)

next-IsValid : (m : Manager) → IsValid m → IsValid (switch_next m true).0
unfolding switch_next
next-IsValid m v = ground arith

next_times_lem :
    (k : ℕ) (m : Manager)
    → IsValid m
    → next_times k m ≡ record m { active = (m.active + k) % m.count }
unfolding next_times
next_times_lem zero m v = ground (arith, mod-eq_of_lt v.active_in, add-zero m.active)
next_times_lem (suc k) m v = rw (next_step m v) (
    next_times_lem k _ (rw (next_step m v) at (next-IsValid m v))
    ∙ ap (λ a. record m { active = a })
        (mod-add-mod (m.active + 1) m.count k ∙ ap (λ n. n % m.count) shift))
  where
    shift : m.active + 1 + k ≡ m.active + suc k
    shift = omega arith

-- Of a valid manager, with wrapping on, `k` steps to the right reach `(active + k) mod count`; so
-- as many steps as there are workspaces come back to the start.
pub next_cycles :
    (k : ℕ) (m : Manager)
    → IsValid m
    → (next_times k m ≡ record m { active = (m.active + k) % m.count }) × (next_times m.count m ≡ m)
next_cycles k m v = (
  next_times_lem k m v,
  ground
      (arith, next_times_lem m.count m v, add-mod_right m.active m.count, mod-eq_of_lt v.active_in),
)

-- Of a valid manager, with wrapping on, a step left undoes a step right, and a step right a step
-- left.
pub prev-next :
    (m : Manager)
    → IsValid m
    → ((switch_prev (switch_next m true).0 true).0 ≡ m)
      × ((switch_next (switch_prev m true).0 true).0 ≡ m)
unfolding switch_next switch_prev
prev-next m v = ground arith

-- What was focused before a switch to another workspace is focused again after the switch back,
-- whatever is focused there in between.
pub focus_survives_switch :
    (m : Manager) (id other : Option ℕ) (idx : ℕ)
    → IsValid m
    → idx < m.count
    → idx ≢ m.active
    → focused (switch_to (set_focus (switch_to (set_focus m id) idx).0 other) m.active).0 ≡ id
unfolding switch_to focused set_focus
focus_survives_switch m id other idx v h ne = ground (
  arith,
  get_elem?-set_self m.focused m.active id,
  get_elem?-set_ne (set m.focused m.active id) idx m.active other ne,
)
