-- ===== src/Shm/Pixels/Bounds.antt =====
-- The pixel helpers stay inside the buffer.
use native.Mathlib.Nat.{mul-le-mul_right, add-mul}
use nullxesos.Prelude.{
  ℕ, zero, suc, ◌+◌, ◌-◌, ◌*◌, ◌≤◌, ◌<◌, ◌≡◌, refl, sym, subst, Option, none, some, List, [], ◌∷◌,
  arith, length, length-set, leb, Bool-cases, inl, inr, ◌||◌,
}
use nullxesos.Prelude.Int.{ℤ, pos, negsuc, pos_part, max_ℤ, min_ℤ}
use nullxesos.Shm.Pixels.{
  Color, as_i32, saturating_add, put_pixel, clear, paint_pixel, fill_row, fill_rows, far_edge,
  fill_rect,
}

-- The length of what a helper leaves; `none` where it panics.
abbrev pub length_after : Option (List ℕ) → Option ℕ
length_after none = none
length_after (some after) = some (length after)

pub put_pixel-length :
    (pixels : List ℕ) (i b g r a : ℕ)
    → i + 3 < length pixels
    → length_after (put_pixel pixels i b g r a) ≡ some (length pixels)
unfolding put_pixel
put_pixel-length pixels i b g r a h = grind (arith, length-set)

-- The buffer is cleared to its end, and keeps its length.
pub length-clear : (c : Color) (pixels : List ℕ) → length (clear c pixels) ≡ length pixels
unfolding clear
length-clear c [] = refl
length-clear c (p ∷ []) = refl
length-clear c (p ∷ q ∷ []) = refl
length-clear c (p ∷ q ∷ s ∷ []) = refl
length-clear c (p ∷ q ∷ s ∷ t ∷ pixels) = omega (arith, length-clear c pixels)

pub paint_pixel-length :
    (c : Color) (pixels : List ℕ) (i : ℕ)
    → i + 3 < length pixels
    → length_after (paint_pixel c pixels i) ≡ some (length pixels)
unfolding paint_pixel
paint_pixel-length c pixels i h = grind (arith, length-set)

pub after-cases :
    (o : Option (List ℕ)) (n : ℕ)
    → length_after o ≡ some n
    → (after : List ℕ) × (o ≡ some after) × (length after ≡ n)
after-cases none n e = ground (arith, e)
after-cases (some after) n e = (after, refl, ground (arith, e))

fill_row-length :
    (c : Color) (pixels : List ℕ) (row px n : ℕ)
    → row + (px + n) * 4 ≤ length pixels
    → length_after (fill_row c pixels row px n) ≡ some (length pixels)
unfolding fill_row
fill_row-length c pixels row px zero h = refl
fill_row-length c pixels row px (suc n) h =
    let (painted, e, same) =
      after-cases (paint_pixel c pixels (row + px * 4)) (length pixels)
        (paint_pixel-length c pixels (row + px * 4) (omega arith)) in
    ground (arith, e, same, fill_row-length c painted row (px + 1) n (omega (arith, same)))

fill_rows-length :
    (c : Color) (pixels : List ℕ) (stride x0 cols py n : ℕ)
    → (x0 + cols) * 4 ≤ stride
    → (py + n) * stride ≤ length pixels
    → length_after (fill_rows c pixels stride x0 cols py n) ≡ some (length pixels)
unfolding fill_rows
fill_rows-length c pixels stride x0 cols py zero w h = refl
fill_rows-length c pixels stride x0 cols py (suc n) w h =
    let here : (py + 1) * stride ≤ (py + suc n) * stride = mul-le-mul_right stride (omega arith) in
    let next : (py + 1) * stride ≡ py * stride + 1 * stride = add-mul py 1 stride in
    let (filled, e, same) =
      after-cases (fill_row c pixels (py * stride) x0 cols) (length pixels)
        (fill_row-length c pixels (py * stride) x0 cols (omega (arith, h, here, next))) in
    let rest : (py + 1 + n) * stride ≤ length filled =
      subst (λ k. k * stride ≤ length filled) (omega arith)
        (subst (λ l. (py + suc n) * stride ≤ l) (sym same) h) in
    ground (arith, e, same, fill_rows-length c filled stride x0 cols (py + 1) n w rest)

clip-le : (s : ℤ) (buf : ℕ) → pos_part (max_ℤ (min_ℤ s (as_i32 buf)) (pos 0)) ≤ buf
clip-le (pos n) buf = ground arith
clip-le (negsuc n) buf = ground arith

pub far_edge-le : (x : ℤ) (w buf : ℕ) → far_edge x w buf ≤ buf
far_edge-le x w buf = clip-le (saturating_add x (as_i32 w)) buf

-- In a buffer of `buf_h` rows that each hold `buf_w` pixels, a rectangle is filled without a write
-- out of range, wherever it lies and however large it is, and the buffer keeps its length.
pub fill_rect-length :
    (pixels : List ℕ) (stride buf_w buf_h : ℕ) (x y : ℤ) (w h : ℕ) (c : Color)
    → buf_w * 4 ≤ stride
    → buf_h * stride ≤ length pixels
    → length_after (fill_rect pixels stride buf_w buf_h x y w h c) ≡ some (length pixels)
unfolding fill_rect
fill_rect-length pixels stride buf_w buf_h x y w h c wide tall =
    let x0 : ℕ = pos_part (max_ℤ x (pos 0)) in
    let y0 : ℕ = pos_part (max_ℤ y (pos 0)) in
    let x1 : ℕ = far_edge x w buf_w in
    let y1 : ℕ = far_edge y h buf_h in
    elim (Bool-cases (leb x1 x0 || leb y1 y0)) [
      | inl e ↦ ground (arith, e)
      | inr e ↦
          let across : x0 < x1 = ground (arith, e) in
          let down : y0 < y1 = ground (arith, e) in
          let rows : (y0 + (y1 - y0)) * stride ≤ buf_h * stride =
            mul-le-mul_right stride (omega (arith, down, far_edge-le y h buf_h)) in
          ground (
            arith,
            e,
            fill_rows-length c pixels stride x0 (x1 - x0) y0 (y1 - y0)
                (omega (arith, across, wide, far_edge-le x w buf_w)) (omega (arith, rows, tall)),
          )
    ]
