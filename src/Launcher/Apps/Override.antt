-- ===== src/Launcher/Apps/Override.antt =====
-- Which of several entries of one name is kept.
use nullxesos.Prelude.{
  ◌≡◌, refl, sym, ap, ap₂, ◌∙◌, true, false, Option, none, some, List, [], ◌∷◌, arith, ◌==◌, ==→eq,
  if◌then◌else◌, find, Bool-cases, Option-cases, inl, inr,
}
use nullxesos.Prelude.Text.{same_text}
use nullxesos.Launcher.Apps.{
  Text, AppEntry, DesktopEntry, in_home, more_specific, put, app_of, scan,
}

same_text→eq : (s t : Text) → same_text s t ≡ true → s ≡ t
same_text→eq [] [] h = refl
same_text→eq [] (d ∷ t) h = ground (arith, h)
same_text→eq (c ∷ s) [] h = ground (arith, h)
same_text→eq (c ∷ s) (d ∷ t) h = elim (Bool-cases (c == d)) [
  | inl e ↦ ap₂ (λ x xs. x ∷ xs) (==→eq c d e) (same_text→eq s t (ground (arith, e, h)))
  | inr e ↦ ground (arith, e, h)
]

-- The entry that the map holds for a name.
abbrev pub lookup : Text → List AppEntry → Option AppEntry
lookup name os = find (λ o. same_text o.name name) os

-- Of two entries for one name.
abbrev pub preferred : Option (List Text) → Option AppEntry → AppEntry → AppEntry
preferred home none app = app
preferred home (some o) app = if more_specific home app.source_path o.source_path then app else o

lookup-put :
    (home : Option (List Text)) (name : Text) (app : AppEntry) (os : List AppEntry)
    → lookup name (put home app os) ≡ (
        if same_text app.name name
        then some (preferred home (lookup app.name os) app)
        else lookup name os)
lookup-put home name app [] = ground arith
lookup-put home name app (o ∷ os) = elim (Bool-cases (same_text o.name app.name)) [
  | inl e ↦
      let same : o.name ≡ app.name = same_text→eq o.name app.name e in
      let agree : same_text o.name name ≡ same_text app.name name =
        ap (λ n. same_text n name) same in
      ground (arith, e, agree)
  | inr e ↦ elim (Bool-cases (same_text app.name name)) [
    | inl h ↦
        let other : same_text o.name name ≡ false =
          ap (same_text o.name) (sym (same_text→eq app.name name h)) ∙ e in
        ground (arith, e, h, other, lookup-put home name app os)
    | inr h ↦ ground (arith, e, h, lookup-put home name app os)
  ]
]

module _ (shlex_split : Text → Option (List Text)) (home : Option (List Text))
    (current : List Text) where
  -- The entries of one name, in the order of the files.
  abbrev pub named : Text → List (List Text × Option DesktopEntry) → List AppEntry
  named name [] = []
  named name (file ∷ files) =
      let rest = named name files in
      elim (app_of shlex_split current file) [
        | none ↦ rest
        | some app ↦ if same_text app.name name then app ∷ rest else rest
      ]

  abbrev pub first : List AppEntry → Option AppEntry
  first [] = none
  first (a ∷ more) = some a

  -- The first entry in the user's home, or else the first one.
  abbrev pub best : List AppEntry → Option AppEntry
  best apps = elim (find (λ b. in_home home b.source_path) apps) [
    | none ↦ first apps
    | some b ↦ some b
  ]

  abbrev after : Option AppEntry → List AppEntry → List AppEntry
  after none apps = apps
  after (some o) apps = o ∷ apps

  keep-preferred :
      (held : Option AppEntry) (app : AppEntry) (more : List AppEntry)
      → best (preferred home held app ∷ more) ≡ best (after held (app ∷ more))
  unfolding more_specific
  keep-preferred none app more = refl
  keep-preferred (some o) app more = ground arith

  best-held : (held : Option AppEntry) → best (after held []) ≡ held
  best-held none = refl
  best-held (some o) = ground arith

  scan-best :
      (by_name : List AppEntry) (files : List (List Text × Option DesktopEntry)) (name : Text)
      → lookup name (scan shlex_split home current by_name files)
        ≡ best (after (lookup name by_name) (named name files))
  unfolding scan
  scan-best by_name [] name = sym (best-held (lookup name by_name))
  scan-best by_name (file ∷ files) name = elim (Option-cases (app_of shlex_split current file)) [
    | inl e ↦ ground (arith, e, scan-best by_name files name)
    | inr (app, e) ↦ elim (Bool-cases (same_text app.name name)) [
      | inl h ↦
          let same : app.name ≡ name = same_text→eq app.name name h in
          let step : lookup name (scan shlex_split home current by_name (file ∷ files))
              ≡ lookup name (scan shlex_split home current (put home app by_name) files) =
            ground (arith, e) in
          let put_name : lookup name (put home app by_name)
              ≡ some (preferred home (lookup name by_name) app) =
            lookup-put home name app by_name ∙ ground (arith, h, ap (λ n. lookup n by_name) same) in
          let with_app : named name (file ∷ files) ≡ app ∷ named name files =
            ground (arith, e, h) in
          step
          ∙ scan-best (put home app by_name) files name
          ∙ ap (λ held. best (after held (named name files))) put_name
          ∙ keep-preferred (lookup name by_name) app (named name files)
          ∙ ap (λ l. best (after (lookup name by_name) l)) (sym with_app)
      | inr h ↦ ground (
        arith,
        e,
        h,
        lookup-put home name app by_name,
        scan-best (put home app by_name) files name,
      )
    ]
  ]

  -- Of all files that give an application of some name, the launcher keeps the first one that lies
  -- in the user's home, or else the first one; where no file gives the name, it has no entry for
  -- it.
  pub scan_lem :
      (files : List (List Text × Option DesktopEntry)) (name : Text)
      → lookup name (scan shlex_split home current [] files) ≡ best (named name files)
  scan_lem files name = scan-best [] files name
