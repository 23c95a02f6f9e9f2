-- ===== src/Launcher/Tests.antt =====
-- Runs of the launcher.
use nullxesos.Prelude.{
  ℕ, refl, false, ◌<◌, ◌≡◌, ◌⊎◌, true, Bool, Option, none, some, List, [], ◌∷◌, length, map, take,
  not, any, get_elem?, ◌==◌, arith,
}
use nullxesos.Prelude.Int.{ℤ, pos}
use nullxesos.Keymap.{down, action, text}
use nullxesos.Launcher.Apps.{Text, AppEntry, DesktopEntry, visible_in, parse_exec, app_of, scan}
use nullxesos.Launcher.Apps.Override.{lookup, scan_lem}
use nullxesos.Launcher.{Query, Scored, new, key_pressed, query, results, run, Event}
use nullxesos.Launcher.Lockfile
use nullxesos.Launcher.Lockfile.{Phase, System, starting, opened, boot, locks, Grants, running}
use nullxesos.Launcher.Lockfile.Race.{two_run}
use nullxesos.Launcher.Selection.{selection_in_range}
use nullxesos.Launcher.Ranking.{descending, Matches, count, matching, query_lem}

-- Every name matches a query of one character, the better the longer it is.
abbrev matcher : Text → Query → Option ℤ
matcher name q = elim q [ c ∷ [] ↦ some (pos (length name)) | _ ↦ none ]

abbrev app : Text → AppEntry
app name = record { name = name; argv = name ∷ []; source_path = [] }

abbrev apps : List AppEntry
apps = app (118 ∷ 105 ∷ []) ∷ app (101 ∷ 100 ∷ 120 ∷ []) ∷ app (110 ∷ []) ∷ []

abbrev keys : List (List Event)
keys =
    (key_pressed (action down) ∷ key_pressed (action down) ∷ [])
    ∷ (key_pressed (text (97 ∷ [])) ∷ [])
    ∷ []

selection_in_range_example :
    let st = run matcher apps new keys in
    (st.selected < length (results matcher apps st)) ⊎ (st.selected ≡ 0)
selection_in_range_example = selection_in_range matcher apps keys

query_lem_example :
    (ranking : List Scored) × (query matcher apps (97 ∷ []) 2 ≡ map (λ s. s.1) (take 2 ranking))
    × (descending ranking ≡ true)
    × Matches matcher (97 ∷ []) ranking
    × ((p : Scored → Bool) → count p ranking ≡ matching matcher p apps (97 ∷ []))
query_lem_example = query_lem matcher apps 97 [] 2

-- Two files give the application "vi": the system's comes first, the user's is kept.
abbrev entry : DesktopEntry
entry = record {
  no_display = false;
  only_show_in = none;
  not_show_in = some (75 ∷ 59 ∷ []);
  name = some (118 ∷ 105 ∷ []);
  exec = some (118 ∷ []);
}

abbrev files : List (List Text × Option DesktopEntry)
files =
    ((117 ∷ []) ∷ [], some entry)
    ∷ ((104 ∷ []) ∷ (97 ∷ []) ∷ [], some entry)
    ∷ ((104 ∷ []) ∷ [], none)
    ∷ []

abbrev alone : Text → Option (List Text)
alone command = some (command ∷ (37 ∷ 102 ∷ []) ∷ [])

scan_lem_example :
    lookup (118 ∷ 105 ∷ []) (scan alone (some ((104 ∷ []) ∷ [])) [] [] files)
    ≡ some (record {
      name = 118 ∷ 105 ∷ [];
      argv = (118 ∷ []) ∷ [];
      source_path = (104 ∷ []) ∷ (97 ∷ []) ∷ [];
    })
unfolding app_of visible_in parse_exec
scan_lem_example = scan_lem alone (some ((104 ∷ []) ∷ [])) [] files (118 ∷ 105 ∷ [])

-- The lock goes to whoever asks while nobody has it. One launcher runs and a second one has opened its
-- file.
abbrev flock : List Phase → ℕ → Bool
flock ps i = not (any (locks i) ps)

grants : Grants flock
grants ps i free = ground (arith, free)

abbrev busy : System
busy = Lockfile.run flock (boot 3) ((0, false) ∷ (0, false) ∷ (1, false) ∷ [])

abbrev busy_now : System
busy_now = record { entry = some 0; next = 1; launchers = running 0 ∷ opened 0 ∷ starting ∷ [] }

busy_lem : busy ≡ busy_now
unfolding Lockfile.run Lockfile.step
busy_lem = refl

two_run_example :
    let t =
      Lockfile.run flock busy_now
        ((0, false) ∷ (0, false) ∷ (1, false) ∷ (2, false) ∷ (2, false) ∷ []) in
    (get_elem? t.launchers 1 ≡ some (running 0))
    × (get_elem? t.launchers 2 ≡ some (running 1))
    × ((1 == 0) ≡ false)
two_run_example =
    two_run flock grants busy_now 0 1 2 0 (λ e. ground (arith, e)) (λ e. ground (arith, e))
      (λ e. ground (arith, e)) refl refl refl refl refl
