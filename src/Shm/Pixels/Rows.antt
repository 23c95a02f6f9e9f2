-- ===== src/Shm/Pixels/Rows.antt =====
-- What the filling of rows does to each byte of the buffer.
use native.Mathlib.Nat.{mul-le-mul_right, add-mul}
use nullxesos.Prelude.{
  ℕ, zero, suc, ◌+◌, ◌-◌, ◌*◌, ◌%◌, ◌≤◌, ◌<◌, ◌≡◌, refl, sym, subst, ◌∙◌, ap, Bool, true, false,
  ◌&&◌, some, List, arith, length, ltb, ◌==◌, Bool-cases, ==→eq, inl, inr, if◌then◌else◌,
}
use nullxesos.Shm.Pixels.{Color, fill_row, fill_rows}
use nullxesos.Shm.Pixels.Writes.{byte_at, painted, within, paint_pixel_lem}

none_within : (low high j u v : ℕ) → high ≤ low → v ≡ (if within low j high then u else v)
none_within low high j u v h = ground arith

row_merge :
    (f : ℕ → ℕ → ℕ) (row px n j old mid : ℕ)
    → mid ≡ (if within (row + px * 4) j (row + px * 4 + 4) then f old (j - (row + px * 4)) else old)
    → (if within (row + (px + 1) * 4) j (row + (px + 1 + n) * 4)
        then f mid ((j - row) % 4)
        else mid)
      ≡ (if within (row + px * 4) j (row + (px + suc n) * 4) then f old ((j - row) % 4) else old)
row_merge f row px n j old mid h = elim (Bool-cases (within (row + px * 4) j (row + px * 4 + 4))) [
  | inl e ↦
      let k : j - (row + px * 4) ≡ (j - row) % 4 = ground (arith, e) in
      ground (arith, e, h, ap (λ m. f old m) k)
  | inr e ↦
      let same : mid ≡ old = ground (arith, e, h) in
      ground (arith, e, same, ap (λ m. f m ((j - row) % 4)) same)
]

-- A row of `n` pixels from `px` on.
fill_row_lem :
    (c : Color) (pixels : List ℕ) (row px n : ℕ)
    → row + (px + n) * 4 ≤ length pixels
    → (after : List ℕ) × (fill_row c pixels row px n ≡ some after)
      × (length after ≡ length pixels)
      × ((j : ℕ)
          → byte_at after j ≡ (
              if within (row + px * 4) j (row + (px + n) * 4)
              then painted c (byte_at pixels j) ((j - row) % 4)
              else byte_at pixels j))
unfolding fill_row
fill_row_lem c pixels row px zero h = (
  pixels,
  refl,
  refl,
  λ j.
      none_within (row + px * 4) (row + (px + 0) * 4) j
        (painted c (byte_at pixels j) ((j - row) % 4)) (byte_at pixels j) (omega arith),
)
fill_row_lem c pixels row px (suc n) h =
    let (one, e, same, at) = paint_pixel_lem c pixels (row + px * 4) (omega (arith, h)) in
    let (after, e', same', at') = fill_row_lem c one row (px + 1) n (omega (arith, h, same)) in
    (
      after,
      ground (arith, e, e'),
      same' ∙ same,
      λ j. at' j ∙ row_merge (painted c) row px n j (byte_at pixels j) (byte_at one j) (at j),
    )

rows_merge :
    (f : ℕ → ℕ → ℕ) (x0 cols py n q m old mid : ℕ)
    → mid ≡ (if (py == q) && within (x0 * 4) m ((x0 + cols) * 4) then f old (m % 4) else old)
    → (if within (py + 1) q (py + 1 + n) && within (x0 * 4) m ((x0 + cols) * 4)
        then f mid (m % 4)
        else mid)
      ≡ (if within py q (py + suc n) && within (x0 * 4) m ((x0 + cols) * 4)
          then f old (m % 4)
          else old)
rows_merge f x0 cols py n q m old mid h = elim (Bool-cases (py == q)) [
  | inl e ↦ ground (arith, e, h)
  | inr e ↦
      let same : mid ≡ old = ground (arith, e, h) in
      ground (arith, e, same, ap (λ u. f u (m % 4)) same)
]

-- Whether a byte lies in the row that is filled, by its row `q` and its place `m` there.
place_lem :
    (x0 cols py q m stride : ℕ)
    → (x0 + cols) * 4 ≤ stride
    → m < stride
    → within (py * stride + x0 * 4) (q * stride + m) (py * stride + (x0 + cols) * 4)
      ≡ ((py == q) && within (x0 * 4) m ((x0 + cols) * 4))
place_lem x0 cols py q m stride wide short = elim (Bool-cases (py == q)) [
  | inl e ↦
      let same : py * stride ≡ q * stride = ap (λ k. k * stride) (==→eq py q e) in
      ground (arith, e, same)
  | inr e ↦ elim (Bool-cases (ltb py q)) [
    | inl l ↦
        let above : (py + 1) * stride ≤ q * stride = mul-le-mul_right stride (ground (arith, l)) in
        ground (arith, e, above, add-mul py 1 stride)
    | inr l ↦
        let below : (q + 1) * stride ≤ py * stride =
          mul-le-mul_right stride (ground (arith, l, e)) in
        ground (arith, e, below, add-mul q 1 stride)
  ]
]

place_mod :
    (x0 cols py q m stride : ℕ)
    → (py == q) && within (x0 * 4) m ((x0 + cols) * 4) ≡ true
    → (q * stride + m - py * stride) % 4 ≡ m % 4
place_mod x0 cols py q m stride h =
    let same : py * stride ≡ q * stride = ap (λ k. k * stride) (==→eq py q (ground (arith, h))) in
    let rest : q * stride + m - py * stride ≡ m = omega (arith, same) in ap (λ k. k % 4) rest

no_rows : (py q : ℕ) (b : Bool) (u v : ℕ) → v ≡ (if within py q (py + 0) && b then u else v)
no_rows py q b u v = ground arith

pub if_change :
    (b b' : Bool)
    → b ≡ b'
    → (x y u : ℕ) → (b' ≡ true → x ≡ y)
    → (if b then x else u) ≡ (if b' then y else u)
if_change b true e x y u h = ground (arith, e, h refl)
if_change b false e x y u h = ground (arith, e)

-- The rows from `py` on, `n` of them, in a buffer of rows of `stride` bytes.
pub fill_rows_lem :
    (c : Color) (pixels : List ℕ) (stride x0 cols py n : ℕ)
    → (x0 + cols) * 4 ≤ stride
    → (py + n) * stride ≤ length pixels
    → (after : List ℕ) × (fill_rows c pixels stride x0 cols py n ≡ some after)
      × (length after ≡ length pixels)
      × ((q m : ℕ)
          → m < stride
          → byte_at after (q * stride + m) ≡ (
              if within py q (py + n) && within (x0 * 4) m ((x0 + cols) * 4)
              then painted c (byte_at pixels (q * stride + m)) (m % 4)
              else byte_at pixels (q * stride + m)))
unfolding fill_rows
fill_rows_lem c pixels stride x0 cols py zero w h = (
  pixels,
  refl,
  refl,
  λ q m short.
      no_rows py q (within (x0 * 4) m ((x0 + cols) * 4))
        (painted c (byte_at pixels (q * stride + m)) (m % 4)) (byte_at pixels (q * stride + m)),
)
fill_rows_lem c pixels stride x0 cols py (suc n) w h =
    let here : (py + 1) * stride ≤ (py + suc n) * stride = mul-le-mul_right stride (omega arith) in
    let next : (py + 1) * stride ≡ py * stride + 1 * stride = add-mul py 1 stride in
    let (one, e, same, at) =
      fill_row_lem c pixels (py * stride) x0 cols (omega (arith, h, here, next)) in
    let rest : (py + 1 + n) * stride ≤ length one =
      subst (λ k. k * stride ≤ length one) (omega arith)
        (subst (λ l. (py + suc n) * stride ≤ l) (sym same) h) in
    let (after, e', same', at') = fill_rows_lem c one stride x0 cols (py + 1) n w rest in
    (
      after,
      ground (arith, e, e'),
      same' ∙ same,
      λ q m short.
          at' q m short
          ∙ rows_merge (painted c) x0 cols py n q m (byte_at pixels (q * stride + m))
              (byte_at one (q * stride + m))
              (at (q * stride + m)
                ∙ if_change
                    (within (py * stride + x0 * 4) (q * stride + m) (py * stride + (x0 + cols) * 4))
                    ((py == q) && within (x0 * 4) m ((x0 + cols) * 4))
                    (place_lem x0 cols py q m stride w short)
                    (painted c (byte_at pixels (q * stride + m))
                      ((q * stride + m - py * stride) % 4))
                    (painted c (byte_at pixels (q * stride + m)) (m % 4))
                    (byte_at pixels (q * stride + m))
                    (λ h.
                      ap (painted c (byte_at pixels (q * stride + m)))
                        (place_mod x0 cols py q m stride h))),
    )
