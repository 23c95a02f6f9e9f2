-- ===== src/Launcher/Ranking.antt =====
-- The order of what the launcher finds.
use nullxesos.Prelude.{
  ℕ, suc, ◌+◌, ◌≡◌, refl, Bool, true, not, ◌&&◌, Option, none, some, List, [], ◌∷◌, arith, take,
  map, All, if◌then◌else◌, Bool-cases, Option-cases, inl, inr, subst,
}
use nullxesos.Prelude.Int.{ℤ, ltb_ℤ}
use nullxesos.Launcher.Apps.{Text, AppEntry}
use nullxesos.Launcher.{Query, Scored, insert, sort_onto, scored, query}

-- Each score is at least the next one.
abbrev pub descending : List Scored → Bool
descending [] = true
descending (x ∷ []) = true
descending (x ∷ y ∷ ys) = not (ltb_ℤ x.0 y.0) && descending (y ∷ ys)

insert-descending :
    (x : Scored) (ys : List Scored) → descending ys ≡ true → descending (insert x ys) ≡ true
unfolding insert
insert-descending x [] h = refl
insert-descending x (y ∷ []) h = ground arith
insert-descending x (y ∷ z ∷ zs) h = ground (arith, insert-descending x (z ∷ zs))

sort_onto-descending :
    (sorted xs : List Scored) → descending sorted ≡ true → descending (sort_onto sorted xs) ≡ true
unfolding sort_onto
sort_onto-descending sorted [] h = h
sort_onto-descending sorted (x ∷ xs) h =
    sort_onto-descending (insert x sorted) xs (insert-descending x sorted h)

-- How many entries pass a test.
abbrev pub count : (Scored → Bool) → List Scored → ℕ
count p [] = 0
count p (x ∷ xs) = let rest = count p xs in if p x then suc rest else rest

count-insert :
    (p : Scored → Bool) (x : Scored) (ys : List Scored) → count p (insert x ys) ≡ count p (x ∷ ys)
unfolding insert
count-insert p x [] = refl
count-insert p x (y ∷ ys) = ground (arith, count-insert p x ys)

count-sort_onto :
    (p : Scored → Bool) (sorted xs : List Scored)
    → count p (sort_onto sorted xs) ≡ count p sorted + count p xs
unfolding sort_onto
count-sort_onto p sorted [] = omega arith
count-sort_onto p sorted (x ∷ xs) =
    ground (arith, count-insert p x sorted, count-sort_onto p (insert x sorted) xs)

-- Every entry matches, with its score.
abbrev pub Matches : (Text → Query → Option ℤ) → Query → List Scored → Type 0
Matches fuzzy_match q = All (λ s. fuzzy_match (s.1.name) q ≡ some s.0)

insert-Matches :
    (f : Text → Query → Option ℤ) (q : Query) (x : Scored) (ys : List Scored)
    → f (x.1.name) q ≡ some x.0
    → Matches f q ys
    → Matches f q (insert x ys)
unfolding insert
insert-Matches f q x [] h hs = (h, tt)
insert-Matches f q x (y ∷ ys) h (k, ks) = elim (Bool-cases (ltb_ℤ y.0 x.0)) [
  | inl e ↦
      let first : x ∷ y ∷ ys ≡ insert x (y ∷ ys) = ground (arith, e) in
      subst (Matches f q) first (h, (k, ks))
  | inr e ↦
      let later : y ∷ insert x ys ≡ insert x (y ∷ ys) = ground (arith, e) in
      subst (Matches f q) later (k, insert-Matches f q x ys h ks)
]

sort_onto-Matches :
    (f : Text → Query → Option ℤ) (q : Query) (sorted xs : List Scored)
    → Matches f q sorted
    → Matches f q xs
    → Matches f q (sort_onto sorted xs)
unfolding sort_onto
sort_onto-Matches f q sorted [] h hs = h
sort_onto-Matches f q sorted (x ∷ xs) h (k, ks) =
    sort_onto-Matches f q (insert x sorted) xs (insert-Matches f q x sorted k h) ks

module _ (fuzzy_match : Text → Query → Option ℤ) where
  scored-Matches :
      (apps : List AppEntry) (q : Query) → Matches fuzzy_match q (scored fuzzy_match apps q)
  unfolding scored
  scored-Matches [] q = tt
  scored-Matches (app ∷ apps) q = elim (Option-cases (fuzzy_match app.name q)) [
    | inl e ↦
        let skipped : scored fuzzy_match apps q ≡ scored fuzzy_match (app ∷ apps) q =
          ground (arith, e) in
        subst (Matches fuzzy_match q) skipped (scored-Matches apps q)
    | inr (score, e) ↦
        let kept : (score, app) ∷ scored fuzzy_match apps q ≡ scored fuzzy_match (app ∷ apps) q =
          ground (arith, e) in
        subst (Matches fuzzy_match q) kept (e, scored-Matches apps q)
  ]

  -- For how many applications the name matches and the entry passes a test.
  abbrev pub matching : (Scored → Bool) → List AppEntry → Query → ℕ
  matching p [] q = 0
  matching p (app ∷ apps) q =
      let rest = matching p apps q in
      elim (fuzzy_match app.name q) [
        | none ↦ rest
        | some score ↦ if p (score, app) then suc rest else rest
      ]

  scored-matching :
      (p : Scored → Bool) (apps : List AppEntry) (q : Query)
      → count p (scored fuzzy_match apps q) ≡ matching p apps q
  unfolding scored
  scored-matching p [] q = refl
  scored-matching p (app ∷ apps) q = elim (Option-cases (fuzzy_match app.name q)) [
    | inl e ↦ ground (arith, e, scored-matching p apps q)
    | inr (score, e) ↦ ground (arith, e, scored-matching p apps q)
  ]

  -- For a query that is not empty the launcher shows, up to the limit, the first entries of a
  -- ranking by falling scores; each entry of the ranking matches the query with its score, and the
  -- ranking has each application that matches, as often as it is among the applications.
  pub query_lem :
      (apps : List AppEntry) (c : ℕ) (q : Query) (limit : ℕ)
      → (ranking : List Scored) × (query fuzzy_match apps (c ∷ q) limit
          ≡ map (λ s. s.1) (take limit ranking))
        × (descending ranking ≡ true)
        × Matches fuzzy_match (c ∷ q) ranking
        × ((p : Scored → Bool) → count p ranking ≡ matching p apps (c ∷ q))
  unfolding query
  query_lem apps c q limit =
      let found : List Scored = scored fuzzy_match apps (c ∷ q) in
      (
        sort_onto [] found,
        refl,
        sort_onto-descending [] found refl,
        sort_onto-Matches fuzzy_match (c ∷ q) [] found tt (scored-Matches apps (c ∷ q)),
        λ p. ground (arith, count-sort_onto p [] found, scored-matching p apps (c ∷ q)),
      )
