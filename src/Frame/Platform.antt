-- ===== src/Frame/Platform.antt =====
-- What FRAME takes from the smithay library: windows, and the stack of windows of a workspace
-- (`smithay::desktop::{Window, Space}`). Their code is not part of the repository, so the
-- operations are a record of functions, and `Lawful` states what smithay documents of them.
use nullxesos.Prelude.{
  ℕ, ◌≡◌, Bool, not, Option, List, [], ◌∷◌, ◌++◌, ◌==◌, if◌then◌else◌, any, filter_by,
}
use nullxesos.Prelude.Int.{ℤ}

-- A `wl_surface`: the object, the client that owns it, and the number that the protocol gives it.
-- The numbers are dealt out by each client on its own.
pub record WlSurface : Type 0 where
  pub object : ℕ
  pub client : ℕ
  pub protocol_id : ℕ

-- Windows are compared by identity.
pub record Window : Type 0 where
  pub handle : ℕ
  pub wl_surface : Option WlSurface

-- `Point<i32, Logical>`, and a rectangle with a size that is not negative.
abbrev pub Point : Type 0
Point = ℤ × ℤ

pub record Rectangle : Type 0 where
  pub loc : Point
  pub w : ℕ
  pub h : ℕ

abbrev pub same_window : Window → Window → Bool
same_window w v = w.handle == v.handle

abbrev pub has : Window → List Window → Bool
has w ws = any (λ v. same_window w v) ws

abbrev pub without : Window → List Window → List Window
without w ws = filter_by (λ v. not (same_window w v)) ws

pub record Platform : Type 1 where
  pub F64 : Type 0
  pub zero_f64 : F64
  pub Space : Type 0
  -- `Space::default()`
  pub empty : Space
  -- From the bottom of the stack to the top.
  pub elements : Space → List Window
  pub element_location : Space → Window → Option Point
  pub map_element : Space → Window → Point → Bool → Space
  pub unmap_elem : Space → Window → Space
  pub raise_element : Space → Window → Bool → Space
  -- The window under the pointer.
  pub element_under : Space → Point → Option Window
  -- Where an output is mapped in the space.
  pub output_geometry : Space → ℕ → Option Rectangle

-- A new space is empty; mapping puts a window on top, whether or not it was there; unmapping takes
-- it out; raising puts a window that is there on top.
pub record Lawful (p : Platform) : Type 0 where
  pub elements-empty : p.elements p.empty ≡ []
  pub elements-map :
      (s : p.Space) (w : Window) (loc : Point) (activate : Bool)
      → p.elements (p.map_element s w loc activate) ≡ without w (p.elements s) ++ (w ∷ [])
  pub elements-unmap :
      (s : p.Space) (w : Window) → p.elements (p.unmap_elem s w) ≡ without w (p.elements s)
  pub elements-raise :
      (s : p.Space) (w : Window) (activate : Bool)
      → p.elements (p.raise_element s w activate)
        ≡ (if has w (p.elements s) then without w (p.elements s) ++ (w ∷ []) else p.elements s)
