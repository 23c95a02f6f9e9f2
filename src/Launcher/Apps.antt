-- ===== src/Launcher/Apps.antt =====
-- The applications that the launcher offers: crates/launcher/src/apps.rs. Texts are lists of
-- characters by their numbers, and a path is the list of its components. The reading of a desktop
-- entry and the splitting of a command are third-party crates'. The final sorting by name is left out.
pub mod Override
use nullxesos.Prelude.{
  ℕ, zero, suc, ◌+◌, Bool, true, false, not, ◌&&◌, ◌||◌, Option, none, some, List, [], ◌∷◌, leb,
  ◌==◌, if◌then◌else◌, map, any, filter_by,
}
use nullxesos.Prelude.Text.{same_text}

abbrev pub Text : Type 0
Text = List ℕ

abbrev pub is_nil : Text → Bool
is_nil [] = true
is_nil (c ∷ s) = false

-- `split(';')`, and the parts that are not empty.
abbrev pub onto_first : ℕ → List Text → List Text
onto_first c [] = (c ∷ []) ∷ []
onto_first c (p ∷ ps) = (c ∷ p) ∷ ps

abbrev pub split_on : ℕ → Text → List Text
split_on sep [] = [] ∷ []
split_on sep (c ∷ s) =
    let rest = split_on sep s in if c == sep then [] ∷ rest else onto_first c rest

abbrev pub parts : Text → List Text
parts s = filter_by (λ p. not (is_nil p)) (split_on 59 s)

-- `eq_ignore_ascii_case`
abbrev pub lower : ℕ → ℕ
lower c = if leb 65 c && leb c 90 then c + 32 else c

abbrev pub same_desktop : Text → Text → Bool
same_desktop s t = same_text (map lower s) (map lower t)

-- What the code asks of a desktop entry.
pub record DesktopEntry : Type 0 where
  pub no_display : Bool
  pub only_show_in : Option Text
  pub not_show_in : Option Text
  pub name : Option Text
  pub exec : Option Text

pub record AppEntry : Type 0 where
  pub name : Text
  pub argv : List Text
  pub source_path : List Text

abbrev pub shares : List Text → List Text → Bool
shares desktops current = any (λ d. any (λ c. same_desktop c d) current) desktops

abbrev pub is_empty_list : List Text → Bool
is_empty_list [] = true
is_empty_list (t ∷ ts) = false

unfoldable pub visible_in : DesktopEntry → List Text → Bool
visible_in de current =
    let allowed : Bool = elim de.only_show_in [
      | none ↦ true
      | some only ↦ not (is_empty_list current) && shares (parts only) current
    ] in
    let denied : Bool = elim de.not_show_in [
      | none ↦ false
      | some list ↦ shares (parts list) current
    ] in
    allowed && not denied

-- `Path::starts_with`
abbrev pub starts_with : List Text → List Text → Bool
starts_with path [] = true
starts_with [] (d ∷ base) = false
starts_with (c ∷ path) (d ∷ base) = same_text c d && starts_with path base

abbrev pub in_home : Option (List Text) → List Text → Bool
in_home none path = false
in_home (some home) path = starts_with path home

unfoldable pub more_specific : Option (List Text) → List Text → List Text → Bool
more_specific home new_path old_path = in_home home new_path && not (in_home home old_path)

-- A `%` and one of f, F, u, U, i, c, k, v, m.
abbrev pub field_letters : List ℕ
field_letters = 102 ∷ 70 ∷ 117 ∷ 85 ∷ 105 ∷ 99 ∷ 107 ∷ 118 ∷ 109 ∷ []

abbrev pub is_field_code : Text → Bool
is_field_code (p ∷ c ∷ []) = (p == 37) && any (λ l. l == c) field_letters
is_field_code _ = false

-- The map from names to entries, in the order in which the names came.
abbrev pub put : Option (List Text) → AppEntry → List AppEntry → List AppEntry
put home app [] = app ∷ []
put home app (o ∷ os) =
    let rest = put home app os in
    if same_text o.name app.name
    then (if more_specific home app.source_path o.source_path then app else o) ∷ os
    else o ∷ rest

module _ (shlex_split : Text → Option (List Text)) where
  unfoldable pub parse_exec : Text → List Text
  parse_exec exec = elim (shlex_split exec) [
    | none ↦ []
    | some tokens ↦ filter_by (λ t. not (is_field_code t)) tokens
  ]

  -- The entry that a file gives, if it gives one: it can be read and decoded, is to be shown, and has
  -- a name and a command.
  unfoldable pub app_of : List Text → List Text × Option DesktopEntry → Option AppEntry
  app_of current (path, none) = none
  app_of current (path, some de) =
      if de.no_display then none else if not (visible_in de current) then none else elim de.name [
        | none ↦ none
        | some name ↦ elim de.exec [
          | none ↦ none
          | some exec ↦ elim (parse_exec exec) [
            | [] ↦ none
            | cmd ∷ args ↦ some (record { name = name; argv = cmd ∷ args; source_path = path })
          ]
        ]
      ]

  unfoldable pub scan :
      Option (List Text)
      → List Text
      → List AppEntry
      → List (List Text × Option DesktopEntry)
      → List AppEntry
  scan home current by_name [] = by_name
  scan home current by_name (file ∷ files) = elim (app_of current file) [
    | none ↦ scan home current by_name files
    | some app ↦ scan home current (put home app by_name) files
  ]
