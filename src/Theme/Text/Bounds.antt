-- ===== src/Theme/Text/Bounds.antt =====
-- Text is drawn inside the buffer.
use native.Mathlib.Nat.{mul-le-mul_right}
use nullxesos.Prelude.{
  ℕ, zero, suc, ◌+◌, ◌*◌, ◌≤◌, ◌<◌, ◌≡◌, refl, subst, sym, inl, inr, false, some, List, arith,
  length, get_elem?-lt, ◌==◌, Bool-cases,
}
use nullxesos.Prelude.Int.{ℤ, pos, negsuc, add_i32, sub_i32, pos_part}
use nullxesos.Shm.Pixels.{Color}
use nullxesos.Shm.Pixels.Bounds.{length_after, put_pixel-length, after-cases}
use nullxesos.Theme.Text.{
  Glyph, Extent, outside, cover_pixel, draw_dot, draw_cols, draw_row, draw_rows, draw_glyph,
}

-- The buffer has `buf_h` rows that each hold `buf_w` pixels.
abbrev pub Fits : Extent → ℕ → Type 0
Fits f n = (f.buf_w * 4 ≤ f.stride) × (f.buf_h * f.stride ≤ n)

-- The bitmap of a glyph has a byte for each of its pixels.
abbrev pub IsBitmap : Glyph → Type 0
IsBitmap g = g.width * g.height ≤ length g.bitmap

cover_pixel-length :
    (c : Color) (pixels : List ℕ) (src_a i : ℕ)
    → i + 3 < length pixels
    → length_after (cover_pixel c pixels src_a i) ≡ some (length pixels)
unfolding cover_pixel
cover_pixel-length c pixels src_a i h = put_pixel-length pixels i _ _ _ 255 h

inside_lem : (v : ℤ) (bound : ℕ) → outside v bound ≡ false → pos_part v < bound
unfolding outside
inside_lem (pos n) bound h = ground arith
inside_lem (negsuc n) bound h = ground arith

cell-lt : (row col w h : ℕ) → row < h → col < w → row * w + col < w * h
cell-lt row col w h r c =
    let rows : (row + 1) * w ≤ h * w = mul-le-mul_right w (omega (arith, r)) in
    omega (arith, rows, c)

module _ (f : Extent) (c : Color) (g : Glyph) (whole : IsBitmap g) where
  draw_dot-length :
      (pixels : List ℕ) (py : ℕ) (left : ℤ) (row col : ℕ)
      → Fits f (length pixels)
      → py < f.buf_h
      → row < g.height
      → col < g.width
      → length_after (draw_dot f c g pixels py left row col) ≡ some (length pixels)
  unfolding draw_dot
  draw_dot-length pixels py left row col fits p r cl =
      elim (Bool-cases (outside (add_i32 left (pos col)) f.buf_w)) [
        | inl e ↦ ground (arith, e)
        | inr e ↦
            let x : pos_part (add_i32 left (pos col)) < f.buf_w =
              inside_lem (add_i32 left (pos col)) f.buf_w e in
            let (coverage, at) =
              get_elem?-lt g.bitmap (row * g.width + col)
                (omega (arith, whole, cell-lt row col g.width g.height r cl)) in
            let below : (py + 1) * f.stride ≤ f.buf_h * f.stride =
              mul-le-mul_right f.stride (omega (arith, p)) in
            ground (
              arith,
              e,
              at,
              cover_pixel-length c pixels coverage
                  (py * f.stride + pos_part (add_i32 left (pos col)) * 4)
                  (omega (arith, x, below, fits)),
            )
      ]

  draw_cols-length :
      (pixels : List ℕ) (py : ℕ) (left : ℤ) (row col n : ℕ)
      → Fits f (length pixels)
      → py < f.buf_h
      → row < g.height
      → col + n ≤ g.width
      → length_after (draw_cols f c g pixels py left row col n) ≡ some (length pixels)
  unfolding draw_cols
  draw_cols-length pixels py left row col zero fits p r cl = refl
  draw_cols-length pixels py left row col (suc n) fits p r cl =
      let (drawn, e, same) =
        after-cases (draw_dot f c g pixels py left row col) (length pixels)
          (draw_dot-length pixels py left row col fits p r (omega (arith, cl))) in
      ground (
        arith,
        e,
        same,
        draw_cols-length drawn py left row (col + 1) n (subst (Fits f) (sym same) fits) p r
            (omega (arith, cl)),
      )

  draw_row-length :
      (pixels : List ℕ) (top left : ℤ) (row : ℕ)
      → Fits f (length pixels)
      → row < g.height
      → length_after (draw_row f c g pixels top left row) ≡ some (length pixels)
  unfolding draw_row
  draw_row-length pixels top left row fits r =
      elim (Bool-cases (outside (add_i32 top (pos row)) f.buf_h)) [
        | inl e ↦ ground (arith, e)
        | inr e ↦ ground (
          arith,
          e,
          draw_cols-length pixels (pos_part (add_i32 top (pos row))) left row 0 g.width fits
              (inside_lem (add_i32 top (pos row)) f.buf_h e) r (omega arith),
        )
      ]

  draw_rows-length :
      (pixels : List ℕ) (top left : ℤ) (row n : ℕ)
      → Fits f (length pixels)
      → row + n ≤ g.height
      → length_after (draw_rows f c g pixels top left row n) ≡ some (length pixels)
  unfolding draw_rows
  draw_rows-length pixels top left row zero fits r = refl
  draw_rows-length pixels top left row (suc n) fits r =
      let (drawn, e, same) =
        after-cases (draw_row f c g pixels top left row) (length pixels)
          (draw_row-length pixels top left row fits (omega (arith, r))) in
      ground (
        arith,
        e,
        same,
        draw_rows-length drawn top left (row + 1) n (subst (Fits f) (sym same) fits)
            (omega (arith, r)),
      )

  pub draw_glyph-length :
      (pixels : List ℕ) (y cursor_x : ℤ)
      → Fits f (length pixels)
      → length_after (draw_glyph f c g pixels y cursor_x) ≡ some (length pixels)
  unfolding draw_glyph
  draw_glyph-length pixels y cursor_x fits = elim (Bool-cases (g.width == 0)) [
    | inl e ↦ ground (arith, e)
    | inr e ↦ ground (
      arith,
      e,
      draw_rows-length pixels (sub_i32 (sub_i32 y g.ymin) (pos g.height)) (add_i32 cursor_x g.xmin)
          0 g.height fits (omega arith),
    )
  ]
