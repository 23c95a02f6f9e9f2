-- ===== src/Frame/Panel/Shapes.antt =====
-- The shapes of the panel are drawn inside its buffer.
use nullxesos.Prelude.{
  ℕ, zero, suc, ◌+◌, ◌*◌, ◌≤◌, ◌≡◌, refl, subst, sym, ◌∙◌, ap, Bool, Option, some, List, [], ◌∷◌,
  length, ◌==◌, if_lem, any, ◌>>=◌,
}
use nullxesos.Prelude.Int.{ℤ, pos, ◌+ℤ◌}
use nullxesos.Shm
use nullxesos.Shm.Pixels.{Color, as_i32}
use nullxesos.Shm.Pixels.Bounds.{after-cases, fill_rect-length, length-clear}
use nullxesos.Paint.{half}
use nullxesos.Paint.Safe.{hline-length}
use nullxesos.Theme.{surface_1, divider, accent, surface_2, text_secondary, text_disabled}
use nullxesos.Theme.Text.{Extent}
use nullxesos.Theme.Text.Bounds.{Fits}
use nullxesos.Frame.Panel.Pixels.{clear, fill_rect, wlcommon_hline}
use nullxesos.Frame.Panel.Mirror.{mirror_lem}
use nullxesos.Frame.Panel.Modules.{
  dots_in_row, dots, fill_circle, ring_circle, offsets, in_disc, in_ring, dot, dots_from, square,
}
use nullxesos.Frame.Panel.{marks, draw_mark, draw_shapes}

-- A drawing that gives a buffer of the same length.
abbrev pub Keeps : ℕ → Option (List ℕ) → Type 0
Keeps n o = (after : List ℕ) × (o ≡ some after) × (length after ≡ n)

>>=-Keeps :
    (n : ℕ) (o : Option (List ℕ)) (g : List ℕ → Option (List ℕ))
    → Keeps n o
    → ((p : List ℕ) → length p ≡ n → Keeps n (g p))
    → Keeps n (o >>= g)
>>=-Keeps n o g (p, e, same) rest =
    let (after, e', same') = rest p same in (after, ap (λ q. q >>= g) e ∙ e', same')

module _ (f : Extent) (n : ℕ) (fits : Fits f n) where
  fill_rect-Keeps :
      (x y : ℤ) (w h : ℕ) (c : Color) (pixels : List ℕ)
      → length pixels ≡ n
      → Keeps n (fill_rect pixels f.stride f.buf_w f.buf_h x y w h c)
  fill_rect-Keeps x y w h c pixels same =
      let (_, mirrored, _) = mirror_lem pixels f.stride f.buf_w f.buf_h x y x w h c in
      let (after, e, same') =
        after-cases (Shm.Pixels.fill_rect pixels f.stride f.buf_w f.buf_h x y w h c) (length pixels)
          (fill_rect-length pixels f.stride f.buf_w f.buf_h x y w h c fits.0
            (subst (λ l. f.buf_h * f.stride ≤ l) (sym same) fits.1)) in
      (after, mirrored ∙ e, same' ∙ same)

  hline-Keeps :
      (y x0 x1 : ℤ) (c : Color) (pixels : List ℕ)
      → length pixels ≡ n
      → Keeps n (wlcommon_hline pixels f.stride f.buf_w f.buf_h y x0 x1 c)
  hline-Keeps y x0 x1 c pixels same =
      let (_, _, mirrored) = mirror_lem pixels f.stride f.buf_w f.buf_h x0 y x1 0 0 c in
      let (after, e, same') =
        after-cases (Shm.Pixels.hline pixels f.stride f.buf_w f.buf_h y x0 x1 c) (length pixels) (
          hline-length pixels f.stride f.buf_w f.buf_h y x0 x1 c fits.0
            (subst (λ l. f.buf_h * f.stride ≤ l) (sym same) fits.1)) in
      (after, mirrored ∙ e, same' ∙ same)

  dots_in_row-Keeps :
      (cx cy : ℤ) (c : Color) (inside : ℕ → Bool) (dy : ℤ) (dxs : List ℤ) (pixels : List ℕ)
      → length pixels ≡ n
      → Keeps n (dots_in_row f cx cy c inside dy dxs pixels)
  unfolding dots_in_row
  dots_in_row-Keeps cx cy c inside dy [] pixels same = (pixels, refl, same)
  dots_in_row-Keeps cx cy c inside dy (dx ∷ dxs) pixels same =
      >>=-Keeps n _ (λ next. dots_in_row f cx cy c inside dy dxs next)
        (if_lem (Keeps n) (inside (square dx + square dy))
          (fill_rect-Keeps (cx +ℤ dx) (cy +ℤ dy) 1 1 c pixels same) (pixels, refl, same))
        (dots_in_row-Keeps cx cy c inside dy dxs)

  dots-Keeps :
      (cx cy : ℤ) (c : Color) (inside : ℕ → Bool) (dys dxs : List ℤ) (pixels : List ℕ)
      → length pixels ≡ n
      → Keeps n (dots f cx cy c inside dys dxs pixels)
  unfolding dots
  dots-Keeps cx cy c inside [] dxs pixels same = (pixels, refl, same)
  dots-Keeps cx cy c inside (dy ∷ dys) dxs pixels same =
      >>=-Keeps n (dots_in_row f cx cy c inside dy dxs pixels) (dots f cx cy c inside dys dxs)
        (dots_in_row-Keeps cx cy c inside dy dxs pixels same) (dots-Keeps cx cy c inside dys dxs)

  dot-Keeps :
      (active : ℕ) (occupied : List ℕ) (i : ℕ) (pixels : List ℕ)
      → length pixels ≡ n
      → Keeps n (dot f active occupied i pixels)
  unfolding dot fill_circle ring_circle
  dot-Keeps active occupied i pixels same =
      let cx : ℤ = pos (60 + i * 16 + 3) in
      let cy : ℤ = half (as_i32 f.buf_h) in
      if_lem (Keeps n) (i == active)
        (dots-Keeps cx cy accent (in_disc 4) (offsets 4 0 9) (offsets 4 0 9) pixels same)
        (if_lem (Keeps n) (any (λ o. o == i) occupied)
          (dots-Keeps cx cy text_secondary (in_ring 3) (offsets 3 0 7) (offsets 3 0 7) pixels same)
          (dots-Keeps cx cy text_disabled (in_ring 2) (offsets 2 0 5) (offsets 2 0 5) pixels same))

  dots_from-Keeps :
      (active : ℕ) (occupied : List ℕ) (i k : ℕ) (pixels : List ℕ)
      → length pixels ≡ n
      → Keeps n (dots_from f active occupied i k pixels)
  unfolding dots_from
  dots_from-Keeps active occupied i zero pixels same = (pixels, refl, same)
  dots_from-Keeps active occupied i (suc k) pixels same =
      >>=-Keeps n (dot f active occupied i pixels) (dots_from f active occupied (suc i) k)
        (dot-Keeps active occupied i pixels same) (dots_from-Keeps active occupied (suc i) k)

  draw_mark-Keeps :
      (ms : List (ℤ × ℤ)) (pixels : List ℕ) → length pixels ≡ n → Keeps n (draw_mark f ms pixels)
  unfolding draw_mark
  draw_mark-Keeps [] pixels same = (pixels, refl, same)
  draw_mark-Keeps ((dx, dy) ∷ rest) pixels same =
      >>=-Keeps n (fill_rect pixels f.stride f.buf_w f.buf_h dx dy 4 4 accent) (draw_mark f rest)
        (fill_rect-Keeps dx dy 4 4 accent pixels same) (draw_mark-Keeps rest)

  pub draw_shapes-Keeps :
      (active : ℕ) (occupied : List ℕ) (pixels : List ℕ)
      → length pixels ≡ n
      → Keeps n (draw_shapes f active occupied pixels)
  unfolding draw_shapes
  draw_shapes-Keeps active occupied pixels same =
      let (cleared, _, _) =
        mirror_lem pixels f.stride f.buf_w f.buf_h (pos 0) (pos 0) (pos 0) 0 0 surface_1 in
      let start : length (clear surface_1 pixels) ≡ n =
        ap length cleared ∙ length-clear surface_1 pixels ∙ same in
      >>=-Keeps n _ _
        (hline-Keeps (pos 0) (pos 0) (as_i32 f.buf_w) divider (clear surface_1 pixels) start)
        (λ lined e.
          >>=-Keeps n _ _ (fill_rect-Keeps (pos 0) (pos 0) 48 f.buf_h surface_2 lined e)
            (λ button e'.
              >>=-Keeps n _ _ (draw_mark-Keeps marks button e')
                (λ marked e''. dots_from-Keeps active occupied 0 9 marked e'')))
