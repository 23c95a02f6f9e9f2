-- ===== src/Keymap.antt =====
-- What a key means to a client: crates/wlcommon/src/keymap.rs. The keymap and its state are
-- xkbcommon's, and the keysyms are constants of that library.
use nullxesos.Prelude.{
  ℕ, ◌+◌, ◌%◌, ◌^◌, Bool, Option, none, some, List, [], ◌∷◌, ◌==◌, if◌then◌else◌, any, find, not,
}

pub data Action : Type 0 where
  enter escape backspace delete tab up down left right home end page_up page_down : Action

pub data KeySymbol : Type 0 where
  action : Action → KeySymbol
  text : List ℕ → KeySymbol
  nothing : KeySymbol

-- `keysyms` gives the keysyms of an action; `utf8` gives characters by their numbers.
pub record Xkb : Type 0 where
  pub keysyms : Action → List ℕ
  pub is_control : ℕ → Bool
  pub key_get_one_sym : ℕ → ℕ
  pub key_get_utf8 : ℕ → List ℕ

-- In the order of the arms.
abbrev pub actions : List Action
actions =
    enter ∷ escape ∷ backspace ∷ delete ∷ tab ∷ up ∷ down ∷ left ∷ right ∷ home ∷ end ∷ page_up
    ∷ page_down ∷ []

abbrev pub action_from_keysym : Xkb → ℕ → Option Action
action_from_keysym x sym = find (λ a. any (λ k. k == sym) (x.keysyms a)) actions

abbrev pub text_or_nothing : Xkb → List ℕ → KeySymbol
text_or_nothing x utf8 = if any (λ c. not (x.is_control c)) utf8 then text utf8 else nothing

-- Without a keymap a key means nothing. An empty text consists of control characters, too.
unfoldable pub process_key : Option Xkb → ℕ → KeySymbol
process_key none wayland_keycode = nothing
process_key (some x) wayland_keycode =
    let keycode = (wayland_keycode + 8) % 2 ^ 32 in
    elim (action_from_keysym x (x.key_get_one_sym keycode)) [
      | some a ↦ action a
      | none ↦ text_or_nothing x (x.key_get_utf8 keycode)
    ]
