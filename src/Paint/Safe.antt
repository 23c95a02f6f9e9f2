-- ===== src/Paint/Safe.antt =====
-- A frame is drawn without a panic.
use nullxesos.Prelude.{
  ℕ, ◌*◌, ◌≤◌, ◌≡◌, refl, sym, subst, ◌∙◌, ap, inl, inr, Option, some, List, [], ◌∷◌, arith, length,
  Bool-cases,
}
use nullxesos.Prelude.Int.{ℤ, pos, ◌-ℤ◌, ltb_ℤ}
use nullxesos.Shm.Pixels.{Color, clear, fill_rect, hline, vline, span}
use nullxesos.Shm.Pixels.Bounds.{length_after, length-clear, fill_rect-length, after-cases}
use nullxesos.Theme.Text.{FontVariant, Glyph, Extent, Canvas, measure_text}
use nullxesos.Theme.Text.Bounds.{Fits, IsBitmap}
use nullxesos.Theme.Text.Cached.{IsCoherent, measure_from_lem}
use nullxesos.Theme.Text.Drawing.{draw_text_lem}
use nullxesos.Paint.{
  Call, clear_call, rect, horizontal, vertical, text_call, centred, half, onto, drawn, call,
  call_all,
}

pub hline-length :
    (pixels : List ℕ) (stride buf_w buf_h : ℕ) (y x0 x1 : ℤ) (c : Color)
    → buf_w * 4 ≤ stride
    → buf_h * stride ≤ length pixels
    → length_after (hline pixels stride buf_w buf_h y x0 x1 c) ≡ some (length pixels)
unfolding hline
hline-length pixels stride buf_w buf_h y x0 x1 c wide tall =
    let line = fill_rect-length pixels stride buf_w buf_h x0 y (span x0 x1) 1 c wide tall in
    elim (Bool-cases (ltb_ℤ x0 x1)) [ inl e ↦ ground (arith, e, line) | inr e ↦ ground (arith, e) ]

vline-length :
    (pixels : List ℕ) (stride buf_w buf_h : ℕ) (x y0 y1 : ℤ) (c : Color)
    → buf_w * 4 ≤ stride
    → buf_h * stride ≤ length pixels
    → length_after (vline pixels stride buf_w buf_h x y0 y1 c) ≡ some (length pixels)
unfolding vline
vline-length pixels stride buf_w buf_h x y0 y1 c wide tall =
    let line = fill_rect-length pixels stride buf_w buf_h x y0 1 (span y0 y1) c wide tall in
    elim (Bool-cases (ltb_ℤ y0 y1)) [ inl e ↦ ground (arith, e, line) | inr e ↦ ground (arith, e) ]

module _ (rasterize : FontVariant → ℕ → ℕ → Glyph) where
  -- What a frame leaves of a canvas: a buffer of the same length, and a coherent cache.
  abbrev pub Leaves : ℕ → Option Canvas → Type 0
  Leaves n o =
      (after : Canvas) × (o ≡ some after)
      × (length after.pixels ≡ n)
      × IsCoherent rasterize after.cache

  onto-Leaves :
      (canvas : Canvas) (o : Option (List ℕ)) (n : ℕ)
      → IsCoherent rasterize canvas.cache
      → length_after o ≡ some n
      → Leaves n (onto canvas o)
  onto-Leaves canvas o n all h =
      let (after, e, same) = after-cases o n h in
      (record canvas { pixels = after }, ap (λ r. onto canvas r) e, same, all)

  module _ (whole : (v : FontVariant) (ch px : ℕ) → IsBitmap (rasterize v ch px)) (f : Extent) where
    call-Leaves :
        (k : Call) (canvas : Canvas)
        → IsCoherent rasterize canvas.cache
        → Fits f (length canvas.pixels)
        → Leaves (length canvas.pixels) (call rasterize f k canvas)
    unfolding call
    call-Leaves (clear_call c) canvas all fits =
        onto-Leaves canvas (some (clear c canvas.pixels)) (length canvas.pixels) all
          (ap some (length-clear c canvas.pixels))
    call-Leaves (rect x y w h c) canvas all (wide, tall) =
        onto-Leaves canvas (fill_rect canvas.pixels f.stride f.buf_w f.buf_h x y w h c)
          (length canvas.pixels) all
          (fill_rect-length canvas.pixels f.stride f.buf_w f.buf_h x y w h c wide tall)
    call-Leaves (horizontal y x0 x1 c) canvas all (wide, tall) =
        onto-Leaves canvas (hline canvas.pixels f.stride f.buf_w f.buf_h y x0 x1 c)
          (length canvas.pixels) all
          (hline-length canvas.pixels f.stride f.buf_w f.buf_h y x0 x1 c wide tall)
    call-Leaves (vertical x y0 y1 c) canvas all (wide, tall) =
        onto-Leaves canvas (vline canvas.pixels f.stride f.buf_w f.buf_h x y0 y1 c)
          (length canvas.pixels) all
          (vline-length canvas.pixels f.stride f.buf_w f.buf_h x y0 y1 c wide tall)
    call-Leaves (text_call x y text px c v) canvas all fits =
        let (after, e, same, _, all') =
          draw_text_lem rasterize whole f canvas x y text px c v all fits in
        (after, ap drawn e, same, all')
    call-Leaves (centred cx y text px c v) canvas all fits =
        let measured : Canvas × ℤ = measure_text rasterize canvas text px v in
        let (_, coherent) = measure_from_lem rasterize canvas.cache (pos 0) text px v all in
        let (after, e, same, _, all') =
          draw_text_lem rasterize whole f measured.0 (cx -ℤ half measured.1) y text px c v coherent
            fits in
        (after, ap drawn e, same, all')

    -- Whatever calls draw a frame, in a buffer of `buf_h` rows that each hold `buf_w` pixels: none of
    -- them panics, wherever it draws, when the rasterizer gives whole bitmaps and the cache holds
    -- what it gave; the buffer keeps its length, and the cache stays such.
    pub call_all_lem :
        (ks : List Call) (canvas : Canvas)
        → IsCoherent rasterize canvas.cache
        → Fits f (length canvas.pixels)
        → Leaves (length canvas.pixels) (call_all rasterize f ks canvas)
    unfolding call_all
    call_all_lem [] canvas all fits = (canvas, refl, refl, all)
    call_all_lem (k ∷ ks) canvas all fits =
        let (next, e, same, all') = call-Leaves k canvas all fits in
        let (after, e', same', all'') =
          call_all_lem ks next all' (subst (Fits f) (sym same) fits) in
        (after, ground (arith, e, e'), same' ∙ same, all'')
