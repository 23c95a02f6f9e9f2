-- ===== src/Frame/Shortcuts.antt =====
-- What the keyboard shortcuts do, from the key event to the windows.
use nullxesos.Prelude.{
  ℕ, ◌+◌, ◌-◌, ◌%◌, ◌<◌, ◌≡◌, refl, sym, ap, subst, ◌∙◌, ◌≢◌, Bool, true, false, none, some, arith,
  get_elem?, find, get_elem?-lt, inl, inr, ==_refl,
}
use nullxesos.Workspace
use nullxesos.Workspace.{Manager}
use nullxesos.Workspace.Invariant.{IsValid}
use nullxesos.Workspace.Moving.{Planned, plan_move_focused_lem}
use nullxesos.Workspace.Switching.{next_times, next_cycles}
use nullxesos.Frame.Platform.{Platform, Lawful, Window}
use nullxesos.Frame.State.{State, IsCoherent, is_locked}
use nullxesos.Frame.Keybind.{
  KeySyms, Mods, intercept, matches_id, is_digit, move_window_between_workspaces, move_focused,
  shortcut, handle_keybind,
}
use nullxesos.Frame.Coherence.{move_window_keeps}
use nullxesos.Frame.Input.{key, pressed, released, key_filter, handle_keyboard, process_input_event}
use nullxesos.Frame.Windows.{in_space, move_window_lem}

next_twice :
    (m : Manager) (wrap : Bool)
    → wrap ≡ true
    → IsValid m
    → (Workspace.switch_next (Workspace.switch_next m wrap).0 wrap).0
      ≡ record m { active = (m.active + 2) % m.count }
next_twice m wrap e v = rw e (unfold next_times in (next_cycles 2 m v).0)

module _ (p : Platform) (k : KeySyms) where
  abbrev super : Bool → Mods
  super shift = record { logo = true; shift = shift }

  -- Keys reach the shortcuts: nothing is locked or shutting down, and the seat has a keyboard.
  pub record IsOpen (st : State p) : Type 0 where
    pub unlocked : is_locked p st ≡ false
    pub running : st.shutdown ≡ false
    pub keyboard : st.keyboard ≡ true

  digit_shortcut :
      (st : State p) (raw : ℕ)
      → is_digit k raw ≡ true
      → handle_keybind p k st (super true) raw ≡ (move_focused p st (raw - k.key_1), intercept)
  unfolding handle_keybind shortcut
  digit_shortcut st raw d = rw (d, shortcut)

  move_focused-Planned :
      (st : State p) (idx id : ℕ)
      → IsValid st.mgr
      → idx < st.mgr.count
      → idx ≢ st.mgr.active
      → Workspace.focused st.mgr ≡ some id
      → (mgr' : Manager) × (move_focused p st idx
          ≡ move_window_between_workspaces p (record st { mgr = mgr' }) st.mgr.active idx id)
        × Planned st.mgr idx id mgr'
  unfolding move_focused
  move_focused-Planned st idx id v h ne focus = elim (plan_move_focused_lem st.mgr idx v) [
    | inl (refused, _) ↦ absurd (ground (arith, refused))
    | inr (id', e, planned) ↦
        let same : id' ≡ id = ground (arith, planned.was_focused) in
        (
          (Workspace.plan_move_focused st.mgr idx).0,
          ground (arith, e, same),
          subst (λ a. Planned st.mgr idx a (Workspace.plan_move_focused st.mgr idx).0) same planned,
        )
  ]

  -- Super+Shift+digit in a coherent compositor, under the laws of the window library, where the
  -- digit names another workspace that exists and the active workspace holds a window with its
  -- focused identifier: the key is intercepted, and the window is then in the chosen workspace and
  -- no longer in the active one, where no window is focused any more; the chosen workspace has it
  -- focused, and the active workspace stays active.
  pub shift_digit_moves :
      (law : Lawful p) (st : State p) (idx id : ℕ) (s : p.Space) (w : Window)
      → IsCoherent p st
      → is_digit k (k.key_1 + idx) ≡ true
      → idx < st.mgr.count
      → idx ≢ st.mgr.active
      → Workspace.focused st.mgr ≡ some id
      → get_elem? st.spaces st.mgr.active ≡ some s
      → find (matches_id id) (p.elements s) ≡ some w
      → let (st', verdict) = handle_keybind p k st (super true) (k.key_1 + idx) in
        (verdict ≡ intercept)
        × (in_space p st' idx w ≡ true)
        × (in_space p st' st.mgr.active w ≡ false)
        × (get_elem? st'.mgr.focused idx ≡ some (some id))
        × (get_elem? st'.mgr.focused st.mgr.active ≡ some none)
        × (st'.mgr.active ≡ st.mgr.active)
  shift_digit_moves law st idx id s w c digit h ne focus hs hw =
      let (mgr', moved, planned) = move_focused-Planned st idx id c.manager h ne focus in
      let (t, ht) = get_elem?-lt st.spaces idx (omega (arith, c.one_space_each)) in
      let st1 : State p = record st { mgr = mgr' } in
      let back : st.mgr.active ≢ idx = λ e. ne (sym e) in
      let e : k.key_1 + idx - k.key_1 ≡ idx = omega arith in
      let keeps = move_window_keeps p st1 st.mgr.active idx id in
      rw (digit_shortcut st (k.key_1 + idx) digit, e, moved, keeps.1)
        (
          refl,
          move_window_lem p st1 st.mgr.active idx id s t w back hs ht hw law idx w
              ∙ ground (arith, ==_refl idx, ==_refl w.handle),
          move_window_lem p st1 st.mgr.active idx id s t w back hs ht hw law st.mgr.active w
              ∙ ground (arith, ==_refl w.handle),
          planned.target_set,
          planned.source_cleared,
          planned.same_active,
        )

  -- One tap of a shortcut key, its press and its release with Super still held, runs the shortcut
  -- twice: the filter does not ask which of the two it sees.
  tap_runs_twice :
      (st : State p) (shift : Bool) (raw : ℕ)
      → IsOpen st
      → IsOpen (handle_keybind p k st (super shift) raw).0
      → let after_press = (process_input_event p k st (key pressed (super shift) raw)).0 in
        (process_input_event p k after_press (key released (super shift) raw)).0
        ≡ (handle_keybind p k (handle_keybind p k st (super shift) raw).0 (super shift) raw).0
  unfolding process_input_event handle_keyboard key_filter
  tap_runs_twice st shift raw o o' = ground (arith, o.unlocked, o'.unlocked)

  right_shortcut :
      (st : State p)
      → is_digit k k.key_right ≡ false
      → handle_keybind p k st (super false) k.key_right
        ≡ (record st { mgr = (Workspace.switch_next st.mgr st.config.workspace.wrap).0 }, intercept)
  unfolding handle_keybind shortcut
  right_shortcut st d = rw (d, shortcut) (ground (arith, ==_refl k.key_right))

  -- In a coherent compositor that takes keys, with wrapping on, one tap of Super+Right (which is
  -- no digit), its press and its release with Super still held, goes two workspaces to the right
  -- and not one: the shortcut runs at both events.
  pub right_tap_moves_two :
      (st : State p)
      → IsCoherent p st
      → IsOpen st
      → st.config.workspace.wrap ≡ true
      → is_digit k k.key_right ≡ false
      → let after_press = (process_input_event p k st (key pressed (super false) k.key_right)).0 in
        (process_input_event p k after_press (key released (super false) k.key_right)).0
        ≡ record st { mgr = record (st.mgr) { active = (st.mgr.active + 2) % st.mgr.count } }
  right_tap_moves_two st c o wrap d =
      tap_runs_twice st false k.key_right o (
        rw (right_shortcut st d)
          (record { unlocked = o.unlocked; running = o.running; keyboard = o.keyboard }))
      ∙ rw (right_shortcut st d, right_shortcut _ d)
          (ap (λ m. record st { mgr = m }) (next_twice st.mgr _ wrap c.manager))
