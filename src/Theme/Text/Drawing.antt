-- ===== src/Theme/Text/Drawing.antt =====
-- What a call of draw_text does, as a whole.
use nullxesos.Prelude.{
  ℕ, ◌+◌, ◌%◌, ◌≡◌, refl, sym, subst, ◌∙◌, ap, Option, none, some, List, [], ◌∷◌, arith, length,
}
use nullxesos.Prelude.Int.{
  ℤ, pos, to_u32, of_u32, add_i32, sub_i32, to_u32-lt, to_u32-add_i32, IsI32, add_i32-IsI32,
  sub_i32_lem,
}
use nullxesos.Shm.Pixels.{Color}
use nullxesos.Shm.Pixels.Bounds.{after-cases}
use nullxesos.Theme.Text.{
  FontVariant, Glyph, Extent, Canvas, draw_glyph, draw_chars, draw_text, measure_text,
}
use nullxesos.Theme.Text.Bounds.{Fits, IsBitmap, draw_glyph-length}
use nullxesos.Theme.Text.Cached.{
  IsCoherent, fresh_chars, fresh_width, IsAsFresh, draw_chars_lem, measure_from_lem,
}

zero-IsI32 : IsI32 (pos 0)
unfolding of_u32 to_u32
zero-IsI32 = refl

module _ (rasterize : FontVariant → ℕ → ℕ → Glyph) where
  -- The width is added to where the text begins.
  fresh_width_from :
      (w : ℤ) (chars : List ℕ) (px : ℕ) (v : FontVariant)
      → to_u32 (fresh_width rasterize w chars px v)
        ≡ (to_u32 w + to_u32 (fresh_width rasterize (pos 0) chars px v)) % 4294967296
  unfolding fresh_width to_u32
  fresh_width_from w [] px v = omega (arith, to_u32-lt w)
  fresh_width_from w (ch ∷ chars) px v =
      let g : ℤ = (rasterize v ch px).advance in
      omega (
        arith,
        fresh_width_from (add_i32 w g) chars px v,
        fresh_width_from (add_i32 (pos 0) g) chars px v,
        to_u32-add_i32 w g,
        to_u32-add_i32 (pos 0) g,
        to_u32-lt w,
        to_u32-lt g,
      )

  fresh_width-IsI32 :
      (w : ℤ) (chars : List ℕ) (px : ℕ) (v : FontVariant)
      → IsI32 w
      → IsI32 (fresh_width rasterize w chars px v)
  unfolding fresh_width
  fresh_width-IsI32 w [] px v i = i
  fresh_width-IsI32 w (ch ∷ chars) px v i =
      let g : ℤ = (rasterize v ch px).advance in
      fresh_width-IsI32 (add_i32 w g) chars px v (add_i32-IsI32 w g)

  -- Without a cache, the characters are drawn inside the buffer.
  fresh_chars_lem :
      (whole : (v : FontVariant) (ch px : ℕ) → IsBitmap (rasterize v ch px)) (f : Extent)
      (c : Color) (v : FontVariant) (px : ℕ) (y : ℤ) (pixels : List ℕ) (x : ℤ) (chars : List ℕ)
      → Fits f (length pixels)
      → (after : List ℕ) × (fresh_chars rasterize f c v px y pixels x chars
          ≡ some (after, fresh_width rasterize x chars px v))
        × (length after ≡ length pixels)
  unfolding fresh_chars fresh_width
  fresh_chars_lem whole f c v px y pixels x [] fits = (pixels, refl, refl)
  fresh_chars_lem whole f c v px y pixels x (ch ∷ chars) fits =
      let g : Glyph = rasterize v ch px in
      let (drawn, e, same) =
        after-cases (draw_glyph f c g pixels y x) (length pixels)
          (draw_glyph-length f c g (whole v ch px) pixels y x fits) in
      let (after, e', same') =
        fresh_chars_lem whole f c v px y drawn (add_i32 x g.advance) chars
          (subst (Fits f) (sym same) fits) in
      (after, ground (arith, e, e'), same' ∙ same)

  as_fresh-some :
      (o : Option (Canvas × ℤ)) (pixels : List ℕ) (w : ℤ)
      → IsAsFresh rasterize o (some (pixels, w))
      → (canvas : Canvas) × (o ≡ some (canvas, w))
        × (canvas.pixels ≡ pixels)
        × IsCoherent rasterize canvas.cache
  as_fresh-some none pixels w h = elim h [ ]
  as_fresh-some (some (canvas, w')) pixels w (e, e', all) =
      (canvas, ap (λ u. some (canvas, u)) e', e, all)

  -- In the release profile, in which an `i32` wraps, text is drawn without a panic wherever it lies, in
  -- a buffer of `buf_h` rows that each hold
  -- `buf_w` pixels, when the rasterizer gives whole bitmaps and the cache holds what it gave: the
  -- buffer keeps its length, the pixels are those that drawing without a cache leaves, the cache
  -- stays such, and the width that is returned is the one that `measure_text` measures.
  pub draw_text_lem :
      (whole : (v : FontVariant) (ch px : ℕ) → IsBitmap (rasterize v ch px)) (f : Extent)
      (canvas : Canvas) (x y : ℤ) (text : List ℕ) (px : ℕ) (c : Color) (v : FontVariant)
      → IsCoherent rasterize canvas.cache
      → Fits f (length canvas.pixels)
      → (after : Canvas) × (draw_text rasterize f canvas x y text px c v
          ≡ some (after, (measure_text rasterize canvas text px v).1))
        × (length after.pixels ≡ length canvas.pixels)
        × (fresh_chars rasterize f c v px y canvas.pixels x text
            ≡ some (after.pixels, fresh_width rasterize x text px v))
        × IsCoherent rasterize after.cache
  unfolding draw_text
  draw_text_lem whole f canvas x y text px c v all fits =
      let (pixels, drawn, same) = fresh_chars_lem whole f c v px y canvas.pixels x text fits in
      let (after, e, ep, all') =
        as_fresh-some (draw_chars rasterize f c v px y canvas x text) pixels
          (fresh_width rasterize x text px v)
          (subst (λ o. IsAsFresh rasterize (draw_chars rasterize f c v px y canvas x text) o) drawn
            (draw_chars_lem rasterize f c v px y canvas x text all)) in
      let width : sub_i32 (fresh_width rasterize x text px v) x
          ≡ (measure_text rasterize canvas text px v).1 =
        sub_i32_lem (fresh_width rasterize x text px v) x (fresh_width rasterize (pos 0) text px v)
          (fresh_width-IsI32 (pos 0) text px v zero-IsI32) (fresh_width_from x text px v)
        ∙ sym (measure_from_lem rasterize canvas.cache (pos 0) text px v all).0 in
      (
        after,
        ground (arith, e, width),
        ap length ep ∙ same,
        drawn ∙ ap (λ p. some (p, fresh_width rasterize x text px v)) (sym ep),
        all',
      )
