-- ===== src/Frame/Windows.antt =====
-- Which window is in which workspace, before and after the moves of crates/frame/src.
use nullxesos.Prelude.{
  ℕ, ◌≡◌, refl, ◌≢◌, Bool, true, false, not, ◌&&◌, ◌||◌, Option, none, some, List, [], ◌∷◌, arith,
  ◌==◌, if◌then◌else◌, get_elem?, set, find, any-append, get_elem?-set, get_elem?-set_ne,
}
use nullxesos.Frame.Platform.{Platform, Lawful, Window, Point, same_window, has, without}
use nullxesos.Frame.State.{State}
use nullxesos.Frame.Keybind.{matches_id, move_window_between_workspaces, or_origin}

has-without :
    (v w : Window) (ws : List Window) → has v (without w ws) ≡ (has v ws && not (same_window w v))
has-without v w [] = refl
has-without v w (u ∷ ws) = ground (arith, has-without v w ws)

module _ (p : Platform) where
  abbrev pub holds : Option p.Space → Window → Bool
  holds none w = false
  holds (some s) w = has w (p.elements s)

  -- The window is in the stack of the workspace with this index.
  abbrev pub in_space : State p → ℕ → Window → Bool
  in_space st i w = holds (get_elem? st.spaces i) w

  module _ (law : Lawful p) where
    pub has-map :
        (s : p.Space) (w v : Window) (loc : Point) (b : Bool)
        → has v (p.elements (p.map_element s w loc b)) ≡ (same_window v w || has v (p.elements s))
    has-map s w v loc b = rw (law.elements-map s w loc b) (
        ground (
          arith,
          any-append (λ u. same_window v u) (without w (p.elements s)) (w ∷ []),
          has-without v w (p.elements s),
        ))

    pub has-unmap :
        (s : p.Space) (w v : Window)
        → has v (p.elements (p.unmap_elem s w)) ≡ (has v (p.elements s) && not (same_window w v))
    has-unmap s w v = rw (law.elements-unmap s w) (has-without v w (p.elements s))

  abbrev carried : State p → ℕ → ℕ → p.Space → p.Space → Window → List p.Space
  carried st src target s t w =
      set (set st.spaces src (p.unmap_elem s w)) target
        (p.map_element t w (or_origin (p.element_location s w)) true)

  module _ (st : State p) (src target id : ℕ) (s t : p.Space) (w : Window) (ne : src ≢ target)
      (hs : get_elem? st.spaces src ≡ some s) (ht : get_elem? st.spaces target ≡ some t)
      (hw : find (matches_id id) (p.elements s) ≡ some w) where
    move_window_spaces :
        move_window_between_workspaces p st src target id
        ≡ record st { spaces = carried st src target s t w }
    unfolding move_window_between_workspaces
    move_window_spaces = ground (arith, get_elem?-set_ne st.spaces src target (p.unmap_elem s w) ne)

    -- Under the laws of the window library: a move from `src` to another workspace `target`, both
    -- of which exist, takes the window with the given identifier, which is in `src`, out of it and
    -- puts it into `target`; no other window changes its workspace, and no other workspace its
    -- windows.
    pub move_window_lem :
        (law : Lawful p) (i : ℕ) (v : Window)
        → in_space (move_window_between_workspaces p st src target id) i v ≡ (
            if i == target
            then same_window v w || in_space st target v
            else if i == src
            then in_space st src v && not (same_window w v)
            else in_space st i v)
    move_window_lem law i v = rw move_window_spaces (
        ground (
          arith,
          get_elem?-set (set st.spaces src (p.unmap_elem s w)) target i
              (p.map_element t w (or_origin (p.element_location s w)) true),
          get_elem?-set st.spaces src i (p.unmap_elem s w),
          has-map law t w v (or_origin (p.element_location s w)) true,
          has-unmap law s w v,
        ))
