-- ===== src/Theme/Fonts/Found.antt =====
-- What the search of crates/wlcommon/src/fonts.rs finds, and that of crates/frame/src/panel/mod.rs.
use nullxesos.Prelude.{
  ◌≡◌, refl, ap, Option, none, some, List, [], ◌∷◌, ◌++◌, All, arith, first_some, Option-cases, inl,
  inr,
}
use nullxesos.Ipc.Path.{PathBuf}
use nullxesos.Theme.Fonts.{
  Outside, Fonts, load_from_candidates, candidate_dirs, load_default_text_renderer,
}

module _ {ℓ κ} {A : Type ℓ} {B : Type κ} (f : A → Option B) where
  -- The element that decides, after others without a result.
  abbrev pub FirstAt : List A → A → Type (ℓ ⊔ κ)
  FirstAt xs x =
      (before after : List A) × (xs ≡ (before ++ (x ∷ after))) × All (λ y. f y ≡ none) before

  pub first_some-found :
      (xs : List A) (b : B) → first_some f xs ≡ some b → (x : A) × FirstAt xs x × (f x ≡ some b)
  first_some-found [] b e = ground (arith, e)
  first_some-found (x ∷ xs) b e = elim (Option-cases (f x)) [
    | inr (c, fx) ↦ (x, ([], xs, refl, tt), ground (arith, e, fx))
    | inl fx ↦
        let r = first_some-found xs b (ground (arith, e, fx)) in
        (r.0, (x ∷ r.1.0, r.1.1, ap (λ ys. x ∷ ys) r.1.2, (fx, r.1.3)), r.2)
  ]

  pub first_some-none : (xs : List A) → first_some f xs ≡ none → All (λ y. f y ≡ none) xs
  first_some-none [] e = tt
  first_some-none (x ∷ xs) e = elim (Option-cases (f x)) [
    | inl fx ↦ (fx, first_some-none xs (ground (arith, e, fx)))
    | inr (c, fx) ↦ ground (arith, e, fx)
  ]

  pub none-first_some : (xs : List A) → All (λ y. f y ≡ none) xs → first_some f xs ≡ none
  none-first_some [] a = refl
  none-first_some (x ∷ xs) (fx, a) = ground (arith, fx, none-first_some xs a)

module _ {ℓ} {Font : Type ℓ} (o : Outside Font) where
  -- The text renderer of a client has the fonts of one of its directories, and no directory before
  -- that one has any.
  pub load_default_lem :
      (fonts : Fonts Font)
      → load_default_text_renderer o ≡ some fonts
      → (dir : PathBuf) × FirstAt (load_from_candidates o) (candidate_dirs o) dir
        × (load_from_candidates o dir ≡ some fonts)
  unfolding load_default_text_renderer
  load_default_lem fonts e = first_some-found (load_from_candidates o) (candidate_dirs o) fonts e
