-- ===== src/Theme/Text/Cached.antt =====
-- The cache of glyphs changes nothing of what is drawn and measured.
use nullxesos.Prelude.{
  ℕ, ◌≡◌, refl, sym, subst, ◌∙◌, ap, inl, inr, true, Option, none, some, List, [], ◌∷◌, arith, All,
  Bool-cases, Option-cases,
}
use nullxesos.Prelude.Int.{ℤ, add_i32}
use nullxesos.Shm.Pixels.{Color}
use nullxesos.Theme.Text.{
  FontVariant, index, Glyph, GlyphKey, GlyphCache, key_of, same_key, lookup, Extent, Canvas,
  draw_glyph, get_or_rasterize, draw_chars, measure_from,
}

index-inj : (v w : FontVariant) → index v ≡ index w → v ≡ w
index-inj v w h = ground (arith, h)

same_key-eq :
    (v w : FontVariant) (ch ch' px px' : ℕ)
    → same_key (key_of v ch px) (key_of w ch' px') ≡ true
    → (v ≡ w) × (ch ≡ ch') × (px ≡ px')
same_key-eq v w ch ch' px px' h =
    (index-inj v w (ground (arith, h)), ground (arith, h), ground (arith, h))

module _ (rasterize : FontVariant → ℕ → ℕ → Glyph) where
  -- An entry holds the glyph of a character, under its key.
  abbrev pub IsEntry : GlyphKey × Glyph → Type 0
  IsEntry (k, g) =
      (v : FontVariant) × (ch : ℕ) × (px : ℕ) × (k ≡ key_of v ch px) × (g ≡ rasterize v ch px)

  abbrev pub IsCoherent : GlyphCache → Type 0
  IsCoherent cache = All IsEntry cache

  lookup_lem :
      (cache : GlyphCache) (v : FontVariant) (ch px : ℕ) (g : Glyph)
      → IsCoherent cache
      → lookup cache (key_of v ch px) ≡ some g
      → g ≡ rasterize v ch px
  lookup_lem [] v ch px g all h = ground (arith, h)
  lookup_lem ((l, g') ∷ cache) v ch px g ((w, ch', px', el, eg), all) h =
      elim (Bool-cases (same_key l (key_of v ch px))) [
        | inl e ↦
            let (ev, ec, ep) =
              same_key-eq w v ch' ch px' px
                (subst (λ k. same_key k (key_of v ch px) ≡ true) el e) in
            cc
        | inr e ↦ lookup_lem cache v ch px g all (ground (arith, e, h))
      ]

  pub get_or_rasterize_lem :
      (cache : GlyphCache) (v : FontVariant) (ch px : ℕ)
      → IsCoherent cache
      → ((get_or_rasterize rasterize cache v ch px).1 ≡ rasterize v ch px)
        × IsCoherent (get_or_rasterize rasterize cache v ch px).0
  unfolding get_or_rasterize
  get_or_rasterize_lem cache v ch px all = elim (Option-cases (lookup cache (key_of v ch px))) [
    | inl e ↦
        let miss : get_or_rasterize rasterize cache v ch px
            ≡ ((key_of v ch px, rasterize v ch px) ∷ cache, rasterize v ch px) =
          ground (arith, e) in
        (ap (λ r. r.1) miss, subst (λ r. IsCoherent r.0) (sym miss) ((v, ch, px, refl, refl), all))
    | inr (g, e) ↦
        let hit : get_or_rasterize rasterize cache v ch px ≡ (cache, g) = ground (arith, e) in
        (
          ap (λ r. r.1) hit ∙ lookup_lem cache v ch px g all e,
          subst (λ r. IsCoherent r.0) (sym hit) all,
        )
  ]

  -- Drawing and measuring without a cache.
  unfoldable pub fresh_chars :
      Extent → Color → FontVariant → ℕ → ℤ → List ℕ → ℤ → List ℕ → Option (List ℕ × ℤ)
  fresh_chars f c v px y pixels x [] = some (pixels, x)
  fresh_chars f c v px y pixels x (ch ∷ chars) =
      let g = rasterize v ch px in
      elim (draw_glyph f c g pixels y x) [
        | none ↦ none
        | some drawn ↦ fresh_chars f c v px y drawn (add_i32 x g.advance) chars
      ]

  unfoldable pub fresh_width : ℤ → List ℕ → ℕ → FontVariant → ℤ
  fresh_width w [] px v = w
  fresh_width w (ch ∷ chars) px v = fresh_width (add_i32 w (rasterize v ch px).advance) chars px v

  -- Both panic; or both draw the same pixels and come to the same place, and the cache is coherent.
  abbrev pub IsAsFresh : Option (Canvas × ℤ) → Option (List ℕ × ℤ) → Type 0
  IsAsFresh none none = Unit
  IsAsFresh none (some r) = ⊥
  IsAsFresh (some r) none = ⊥
  IsAsFresh (some (canvas, w)) (some (pixels, w')) =
      (canvas.pixels ≡ pixels) × (w ≡ w') × IsCoherent canvas.cache

  pub draw_chars_lem :
      (f : Extent) (c : Color) (v : FontVariant) (px : ℕ) (y : ℤ) (canvas : Canvas) (x : ℤ)
      (chars : List ℕ)
      → IsCoherent canvas.cache
      → IsAsFresh
          (draw_chars rasterize f c v px y canvas x chars)
          (fresh_chars f c v px y canvas.pixels x chars)
  unfolding draw_chars fresh_chars
  draw_chars_lem f c v px y canvas x [] all = (refl, refl, all)
  draw_chars_lem f c v px y canvas x (ch ∷ chars) all =
      let got : GlyphCache × Glyph = get_or_rasterize rasterize canvas.cache v ch px in
      let r : Glyph = rasterize v ch px in
      let (same, all') = get_or_rasterize_lem canvas.cache v ch px all in
      let glyph : draw_glyph f c got.1 canvas.pixels y x ≡ draw_glyph f c r canvas.pixels y x =
        ap (λ g. draw_glyph f c g canvas.pixels y x) same in
      elim (Option-cases (draw_glyph f c r canvas.pixels y x)) [
        | inl e ↦
            let cached : draw_chars rasterize f c v px y canvas x (ch ∷ chars) ≡ none =
              ground (arith, glyph ∙ e) in
            let fresh : fresh_chars f c v px y canvas.pixels x (ch ∷ chars) ≡ none =
              ground (arith, e) in
            subst (λ o. IsAsFresh o (fresh_chars f c v px y canvas.pixels x (ch ∷ chars)))
              (sym cached) (subst (λ o. IsAsFresh none o) (sym fresh) tt)
        | inr (drawn, e) ↦
            let next : Canvas = record { pixels = drawn; cache = got.0 } in
            let cached : draw_chars rasterize f c v px y canvas x (ch ∷ chars)
                ≡ draw_chars rasterize f c v px y next (add_i32 x r.advance) chars =
              ground (arith, glyph ∙ e, same) in
            let fresh : fresh_chars f c v px y canvas.pixels x (ch ∷ chars)
                ≡ fresh_chars f c v px y drawn (add_i32 x r.advance) chars =
              ground (arith, e) in
            subst (λ o. IsAsFresh o (fresh_chars f c v px y canvas.pixels x (ch ∷ chars)))
              (sym cached)
              (subst
                (λ o.
                  IsAsFresh (draw_chars rasterize f c v px y next (add_i32 x r.advance) chars) o)
                (sym fresh) (draw_chars_lem f c v px y next (add_i32 x r.advance) chars all'))
      ]

  pub measure_from_lem :
      (cache : GlyphCache) (w : ℤ) (chars : List ℕ) (px : ℕ) (v : FontVariant)
      → IsCoherent cache
      → ((measure_from rasterize cache w chars px v).1 ≡ fresh_width w chars px v)
        × IsCoherent (measure_from rasterize cache w chars px v).0
  unfolding measure_from fresh_width
  measure_from_lem cache w [] px v all = (refl, all)
  measure_from_lem cache w (ch ∷ chars) px v all =
      let (same, all') = get_or_rasterize_lem cache v ch px all in
      let got : GlyphCache × Glyph = get_or_rasterize rasterize cache v ch px in
      subst
        (λ g.
          ((measure_from rasterize got.0 (add_i32 w g.advance) chars px v).1
            ≡ fresh_width (add_i32 w (rasterize v ch px).advance) chars px v)
          × IsCoherent (measure_from rasterize got.0 (add_i32 w g.advance) chars px v).0)
        (sym same) (measure_from_lem got.0 (add_i32 w (rasterize v ch px).advance) chars px v all')
