-- ===== src/Launcher.antt =====
-- The launcher: crates/launcher/src/{state,search}.rs. The fuzzy matcher is a third-party crate's:
-- it gives a name and a query a score, or none.
pub mod Draw
pub mod Apps
pub mod Lockfile
pub mod Ranking
pub mod Selection
mod Tests
use nullxesos.Prelude.{
  ℕ, suc, ◌-◌, ◌+◌, Bool, true, false, not, String, Option, none, some, List, [], ◌∷◌, ◌++◌, map,
  take, length, get_elem?, ltb, if◌then◌else◌,
}
use nullxesos.Prelude.Int.{ℤ, ltb_ℤ}
use nullxesos.Launcher.Apps.{Text, AppEntry}
use nullxesos.Keymap.{Action, enter, backspace, escape, up, down, KeySymbol, action, text, nothing}

-- The characters of a query, by their numbers.
abbrev pub Query : Type 0
Query = List ℕ

abbrev pub pop : Query → Query
pop [] = []
pop (c ∷ []) = []
pop (c ∷ d ∷ s) = c ∷ pop (d ∷ s)

abbrev pub Scored : Type 0
Scored = ℤ × AppEntry

-- Before the first entry of a lower score, so after those of the same score.
unfoldable pub insert : Scored → List Scored → List Scored
insert x [] = x ∷ []
insert x (y ∷ ys) = let rest = insert x ys in if ltb_ℤ y.0 x.0 then x ∷ y ∷ ys else y ∷ rest

-- `sort_by(|a, b| b.0.cmp(&a.0))`, which is stable: what comes first goes in first.
unfoldable pub sort_onto : List Scored → List Scored → List Scored
sort_onto sorted [] = sorted
sort_onto sorted (x ∷ xs) = sort_onto (insert x sorted) xs

abbrev pub max_results : ℕ
max_results = 8

-- `configured` says that the surface may be drawn; `launched` is the command that was started.
pub record LauncherState : Type 0 where
  pub query : Query
  pub selected : ℕ
  pub configured : Bool
  pub should_close : Bool
  pub launched : List (List Text)

abbrev pub new : LauncherState
new = record { query = []; selected = 0; configured = false; should_close = false; launched = [] }

pub data Event : Type 0 where
  configure_event closed_event : Event
  key_pressed : KeySymbol → Event

module _ (fuzzy_match : Text → Query → Option ℤ) where
  unfoldable pub scored : List AppEntry → Query → List Scored
  scored [] q = []
  scored (app ∷ apps) q =
      let rest = scored apps q in
      elim (fuzzy_match app.name q) [ none ↦ rest | some score ↦ (score, app) ∷ rest ]

  unfoldable pub query : List AppEntry → Query → ℕ → List AppEntry
  query apps [] limit = take limit apps
  query apps (c ∷ q) limit = map (λ s. s.1) (take limit (sort_onto [] (scored apps (c ∷ q))))

  module _ (apps : List AppEntry) where
    abbrev pub results : LauncherState → List AppEntry
    results st = query apps st.query max_results

    -- The command and its arguments, if there is a command.
    abbrev pub command : AppEntry → List (List Text)
    command app = elim app.argv [ [] ↦ [] | cmd ∷ args ↦ (cmd ∷ args) ∷ [] ]

    unfoldable pub launch_selected : LauncherState → LauncherState
    launch_selected st = elim (get_elem? (results st) st.selected) [
      | none ↦ st
      | some app ↦ record st { launched = st.launched ++ command app }
    ]

    unfoldable pub handle_action : LauncherState → Action → LauncherState
    handle_action st escape = record st { should_close = true }
    handle_action st enter = record (launch_selected st) { should_close = true }
    handle_action st backspace = record st { query = pop st.query; selected = 0 }
    handle_action st up = if ltb 0 st.selected then record st { selected = st.selected - 1 } else st
    handle_action st down =
        if ltb st.selected (length (results st) - 1)
        then record st { selected = st.selected + 1 }
        else st
    handle_action st _ = st

    unfoldable pub handle_text : LauncherState → List ℕ → LauncherState
    handle_text st s = record st { query = st.query ++ s; selected = 0 }

    unfoldable pub event : LauncherState → Event → LauncherState
    event st configure_event = record st { configured = true }
    event st closed_event = record st { should_close = true }
    event st (key_pressed (action a)) = handle_action st a
    event st (key_pressed (text s)) = handle_text st s
    event st (key_pressed nothing) = st

    -- What one call of `blocking_dispatch` hands over.
    abbrev pub dispatch_all : LauncherState → List Event → LauncherState
    dispatch_all st [] = st
    dispatch_all st (e ∷ es) = dispatch_all (event st e) es

    -- The loop ends when the launcher closes.
    unfoldable pub run : LauncherState → List (List Event) → LauncherState
    run st [] = st
    run st (es ∷ batches) =
        let rest = run (dispatch_all st es) batches in if st.should_close then st else rest
