-- ===== src/Frame/Panel/Mirror.antt =====
-- The copies of the pixel helpers do what those of the client library do.
use nullxesos.Prelude.{
  ℕ, zero, suc, ◌+◌, ◌-◌, ◌*◌, ◌≡◌, refl, ap, inl, inr, true, false, ◌||◌, Option, some, List, [],
  ◌∷◌, arith, leb, ◌==◌, Bool-cases, Option-cases, if◌then◌else◌,
}
use nullxesos.Prelude.Int.{ℤ, pos, pos_part, max_ℤ, ltb_ℤ}
use nullxesos.Shm
use nullxesos.Shm.Pixels.{Color, paint_pixel, put_pixel, fill_row, fill_rows, far_edge, span}
use nullxesos.Frame.Panel.Pixels.{
  clear, opaque_pixel, mixed_pixel, each_column, each_row, fill_rect, wlcommon_hline,
}

clear-mirror : (c : Color) (pixels : List ℕ) → clear c pixels ≡ Shm.Pixels.clear c pixels
unfolding clear Shm.Pixels.clear
clear-mirror c [] = refl
clear-mirror c (p ∷ []) = refl
clear-mirror c (p ∷ q ∷ []) = refl
clear-mirror c (p ∷ q ∷ s ∷ []) = refl
clear-mirror c (p ∷ q ∷ s ∷ t ∷ pixels) =
    ap (λ rest. c.b ∷ c.g ∷ c.r ∷ c.a ∷ rest) (clear-mirror c pixels)

opaque_pixel-mirror :
    (c : Color) (pixels : List ℕ) (i : ℕ)
    → (c.a == 255) ≡ true
    → opaque_pixel c pixels i ≡ paint_pixel c pixels i
unfolding put_pixel paint_pixel
opaque_pixel-mirror c pixels i e = rw e

mixed_pixel-mirror :
    (c : Color) (pixels : List ℕ) (i : ℕ)
    → (c.a == 255) ≡ false
    → mixed_pixel c pixels i ≡ paint_pixel c pixels i
unfolding put_pixel paint_pixel
mixed_pixel-mirror c pixels i e = rw e

module _ (c : Color) (body : List ℕ → ℕ → Option (List ℕ))
    (same : (pixels : List ℕ) (i : ℕ) → body pixels i ≡ paint_pixel c pixels i) where
  each_column-mirror :
      (pixels : List ℕ) (row px n : ℕ)
      → each_column body pixels row px n ≡ fill_row c pixels row px n
  unfolding each_column fill_row
  each_column-mirror pixels row px zero = refl
  each_column-mirror pixels row px (suc n) =
      elim (Option-cases (paint_pixel c pixels (row + px * 4))) [
        | inl e ↦ ground (arith, e, same pixels (row + px * 4))
        | inr (next, e) ↦
            ground (arith, e, same pixels (row + px * 4), each_column-mirror next row (px + 1) n)
      ]

  each_row-mirror :
      (pixels : List ℕ) (stride x0 cols py n : ℕ)
      → each_row body pixels stride x0 cols py n ≡ fill_rows c pixels stride x0 cols py n
  unfolding each_row fill_rows
  each_row-mirror pixels stride x0 cols py zero = refl
  each_row-mirror pixels stride x0 cols py (suc n) =
      elim (Option-cases (fill_row c pixels (py * stride) x0 cols)) [
        | inl e ↦ ground (arith, e, each_column-mirror pixels (py * stride) x0 cols)
        | inr (next, e) ↦ ground (
          arith,
          e,
          each_column-mirror pixels (py * stride) x0 cols,
          each_row-mirror next stride x0 cols (py + 1) n,
        )
      ]

fill_rect-mirror :
    (pixels : List ℕ) (stride buf_w buf_h : ℕ) (x y : ℤ) (w h : ℕ) (c : Color)
    → fill_rect pixels stride buf_w buf_h x y w h c
      ≡ Shm.Pixels.fill_rect pixels stride buf_w buf_h x y w h c
unfolding fill_rect Shm.Pixels.fill_rect
fill_rect-mirror pixels stride buf_w buf_h x y w h c =
    let x0 : ℕ = pos_part (max_ℤ x (pos 0)) in
    let y0 : ℕ = pos_part (max_ℤ y (pos 0)) in
    let x1 : ℕ = far_edge x w buf_w in
    let y1 : ℕ = far_edge y h buf_h in
    elim (Bool-cases (leb x1 x0 || leb y1 y0)) [
      | inl e ↦ rw e
      | inr e ↦ elim (Bool-cases (c.a == 255)) [
        | inl a ↦
            rw (e, a)
              (each_row-mirror c (opaque_pixel c) (λ p i. opaque_pixel-mirror c p i a) pixels stride
                x0 (x1 - x0) y0 (y1 - y0))
        | inr a ↦
            rw (e, a)
              (each_row-mirror c (mixed_pixel c) (λ p i. mixed_pixel-mirror c p i a) pixels stride
                x0 (x1 - x0) y0 (y1 - y0))
      ]
    ]

-- The panel's own copies of clear, fill_rect and hline give, on every buffer and for all arguments, the
-- bytes that the helpers of the client library give, and panic exactly where those do.
pub mirror_lem :
    (pixels : List ℕ) (stride buf_w buf_h : ℕ) (x y x1 : ℤ) (w h : ℕ) (c : Color)
    → (clear c pixels ≡ Shm.Pixels.clear c pixels)
      × (fill_rect pixels stride buf_w buf_h x y w h c
          ≡ Shm.Pixels.fill_rect pixels stride buf_w buf_h x y w h c)
      × (wlcommon_hline pixels stride buf_w buf_h y x x1 c
          ≡ Shm.Pixels.hline pixels stride buf_w buf_h y x x1 c)
unfolding wlcommon_hline Shm.Pixels.hline
mirror_lem pixels stride buf_w buf_h x y x1 w h c = (
  clear-mirror c pixels,
  fill_rect-mirror pixels stride buf_w buf_h x y w h c,
  ap (λ o. if ltb_ℤ x x1 then o else some pixels)
      (fill_rect-mirror pixels stride buf_w buf_h x y (span x x1) 1 c),
)
