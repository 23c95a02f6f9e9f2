-- ===== src/Shm/Pixels/Effect.antt =====
-- What the filling of a rectangle does to each byte of the buffer.
use native.Mathlib.Nat.{mul-le-mul_right}
use nullxesos.Prelude.{
  ℕ, ◌+◌, ◌-◌, ◌*◌, ◌%◌, ◌^◌, ◌≤◌, ◌<◌, ◌≡◌, refl, ◌∙◌, ap, Bool, true, false, not, ◌&&◌, ◌||◌,
  some, List, arith, length, leb, ltb, Bool-cases, inl, inr, if◌then◌else◌,
}
use nullxesos.Prelude.Int.{ℤ, pos, negsuc, ◌+ℤ◌, pos_part, max_ℤ, ltb_ℤ}
use nullxesos.Shm.Pixels.{Color, saturating_add, far_edge, fill_rect}
use nullxesos.Shm.Pixels.Bounds.{far_edge-le}
use nullxesos.Shm.Pixels.Writes.{byte_at, painted, within}
use nullxesos.Shm.Pixels.Rows.{fill_rows_lem, if_change}

-- Whether the column or the row `q` lies in the `w` columns or rows from `x` on.
abbrev pub covers : ℤ → ℕ → ℕ → Bool
covers x w q = not (ltb_ℤ (pos q) x) && ltb_ℤ (pos q) (x +ℤ pos w)

covers_lem :
    (x : ℤ) (w buf q : ℕ)
    → w < 2 ^ 31
    → buf < 2 ^ 31
    → q < buf
    → (leb (pos_part (max_ℤ x (pos 0))) q && ltb q (far_edge x w buf)) ≡ covers x w q
unfolding saturating_add ◌+ℤ◌
covers_lem (pos x) w buf q hw hb hq = ground arith
covers_lem (negsuc x) w buf q hw hb hq = ground arith

empty_lem :
    (x0 x1 y0 y1 qx qy : ℕ) (cx cy : Bool) (u v : ℕ)
    → (leb x1 x0 || leb y1 y0) ≡ true
    → (leb x0 qx && ltb qx x1) ≡ cx
    → (leb y0 qy && ltb qy y1) ≡ cy
    → v ≡ (if cx && cy then u else v)
empty_lem x0 x1 y0 y1 qx qy cx cy u v e hx hy = ground (arith, e, hx, hy)

full_lem :
    (x0 x1 y0 y1 qx qy k : ℕ) (cx cy : Bool)
    → (leb x1 x0 || leb y1 y0) ≡ false
    → k < 4
    → (leb x0 qx && ltb qx x1) ≡ cx
    → (leb y0 qy && ltb qy y1) ≡ cy
    → (within y0 qy (y0 + (y1 - y0)) && within (x0 * 4) (qx * 4 + k) ((x0 + (x1 - x0)) * 4))
      ≡ (cx && cy)
full_lem x0 x1 y0 y1 qx qy k cx cy e small hx hy = ground (arith, e, small, hx, hy)

-- In a buffer of `buf_h` rows that each hold `buf_w` pixels, with sizes below 2 ^ 31: filling a rectangle
-- does not panic and keeps the length; a pixel of the buffer is painted exactly when it lies in the
-- rectangle, by the integers and without regard to clipping or saturation, and each other pixel
-- keeps its four bytes. Painting mixes blue, green and red by the alpha, and makes it opaque.
pub fill_rect_lem :
    (pixels : List ℕ) (stride buf_w buf_h : ℕ) (x y : ℤ) (w h : ℕ) (c : Color) (qx qy k : ℕ)
    → buf_w * 4 ≤ stride
    → buf_h * stride ≤ length pixels
    → buf_w < 2 ^ 31
    → buf_h < 2 ^ 31
    → w < 2 ^ 31
    → h < 2 ^ 31
    → qx < buf_w
    → qy < buf_h
    → k < 4
    → (after : List ℕ) × (fill_rect pixels stride buf_w buf_h x y w h c ≡ some after)
      × (length after ≡ length pixels)
      × (byte_at after (qy * stride + (qx * 4 + k)) ≡ (
          if covers x w qx && covers y h qy
          then painted c (byte_at pixels (qy * stride + (qx * 4 + k))) k
          else byte_at pixels (qy * stride + (qx * 4 + k))))
unfolding fill_rect
fill_rect_lem pixels stride buf_w buf_h x y w h c qx qy k wide tall hbw hbh hw hh inx iny small =
    let x0 : ℕ = pos_part (max_ℤ x (pos 0)) in
    let y0 : ℕ = pos_part (max_ℤ y (pos 0)) in
    let x1 : ℕ = far_edge x w buf_w in
    let y1 : ℕ = far_edge y h buf_h in
    let old : ℕ = byte_at pixels (qy * stride + (qx * 4 + k)) in
    let cx = covers_lem x w buf_w qx hw hbw inx in
    let cy = covers_lem y h buf_h qy hh hbh iny in
    elim (Bool-cases (leb x1 x0 || leb y1 y0)) [
      | inl e ↦ (
        pixels,
        ground (arith, e),
        refl,
        empty_lem x0 x1 y0 y1 qx qy (covers x w qx) (covers y h qy) (painted c old k) old e cx cy,
      )
      | inr e ↦
          let across : x0 < x1 = ground (arith, e) in
          let down : y0 < y1 = ground (arith, e) in
          let place : (qx * 4 + k) % 4 ≡ k = omega (arith, small) in
          let rows : (y0 + (y1 - y0)) * stride ≤ buf_h * stride =
            mul-le-mul_right stride (omega (arith, down, far_edge-le y h buf_h)) in
          let (after, filled, same, at) =
            fill_rows_lem c pixels stride x0 (x1 - x0) y0 (y1 - y0)
              (omega (arith, across, wide, far_edge-le x w buf_w)) (omega (arith, rows, tall)) in
          (
            after,
            ground (arith, e, filled),
            same,
            at qy (qx * 4 + k) (omega (arith, wide, inx, small))
                ∙ if_change
                    (within y0 qy (y0 + (y1 - y0))
                      && within (x0 * 4) (qx * 4 + k) ((x0 + (x1 - x0)) * 4))
                    (covers x w qx && covers y h qy)
                    (full_lem x0 x1 y0 y1 qx qy k (covers x w qx) (covers y h qy) e small cx cy)
                    (painted c old ((qx * 4 + k) % 4)) (painted c old k) old
                    (λ _. ap (painted c old) place),
          )
    ]
