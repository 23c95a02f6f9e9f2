-- ===== src/Frame/Panel/Pixels.antt =====
-- The copies of the pixel helpers in crates/frame/src/panel/mod.rs; `none` stands for the panic of an
-- index out of range.
use nullxesos.Prelude.{
  ℕ, zero, suc, ◌+◌, ◌-◌, ◌*◌, ◌/◌, ◌%◌, ◌||◌, Option, some, List, ◌∷◌, leb, ◌==◌, if◌then◌else◌,
  get_elem?, ◌>>=◌,
}
use nullxesos.Prelude.Int.{ℤ, pos, ◌-ℤ◌, pos_part, ltb_ℤ, min_ℤ, max_ℤ}
use nullxesos.Shm.Pixels.{Color, as_i32, saturating_add, byte_or_0, put_pixel}

-- Four bytes at a time; what is left over, fewer than four, stays.
unfoldable pub clear : Color → List ℕ → List ℕ
clear c (p ∷ q ∷ s ∷ t ∷ pixels) = c.b ∷ c.g ∷ c.r ∷ c.a ∷ clear c pixels
clear c pixels = pixels

-- The body of the loop for an opaque colour, and for one that lets the old one through.
abbrev pub opaque_pixel : Color → List ℕ → ℕ → Option (List ℕ)
opaque_pixel c pixels i = put_pixel pixels i c.b c.g c.r 255

abbrev pub mixed : ℕ → ℕ → ℕ → ℕ
mixed src_a old c = (old * (255 - src_a) + c * src_a) / 255 % 256

abbrev pub mixed_pixel : Color → List ℕ → ℕ → Option (List ℕ)
mixed_pixel c pixels i =
    put_pixel pixels i (mixed c.a (byte_or_0 (get_elem? pixels i)) c.b)
      (mixed c.a (byte_or_0 (get_elem? pixels (i + 1))) c.g)
      (mixed c.a (byte_or_0 (get_elem? pixels (i + 2))) c.r) 255

module _ (body : List ℕ → ℕ → Option (List ℕ)) where
  -- `for px in px..px + n`
  unfoldable pub each_column : List ℕ → ℕ → ℕ → ℕ → Option (List ℕ)
  each_column pixels row px zero = some pixels
  each_column pixels row px (suc n) =
      body pixels (row + px * 4) >>= λ next. each_column next row (px + 1) n

  -- `for py in py..py + n`
  unfoldable pub each_row : List ℕ → ℕ → ℕ → ℕ → ℕ → ℕ → Option (List ℕ)
  each_row pixels stride x0 cols py zero = some pixels
  each_row pixels stride x0 cols py (suc n) =
      each_column pixels (py * stride) x0 cols >>= λ next. each_row next stride x0 cols (py + 1) n

-- `(x.saturating_add(w as i32)).min(buf_w as i32).max(0) as usize`
abbrev pub end_of : ℤ → ℕ → ℕ → ℕ
end_of x w buf_w = pos_part (max_ℤ (min_ℤ (saturating_add x (as_i32 w)) (as_i32 buf_w)) (pos 0))

unfoldable pub fill_rect : List ℕ → ℕ → ℕ → ℕ → ℤ → ℤ → ℕ → ℕ → Color → Option (List ℕ)
fill_rect pixels stride buf_w buf_h x y w h color =
    let x0 = pos_part (max_ℤ x (pos 0)) in
    let y0 = pos_part (max_ℤ y (pos 0)) in
    let x1 = end_of x w buf_w in
    let y1 = end_of y h buf_h in
    if leb x1 x0 || leb y1 y0
    then some pixels
    else if color.a == 255
    then each_row (opaque_pixel color) pixels stride x0 (x1 - x0) y0 (y1 - y0)
    else each_row (mixed_pixel color) pixels stride x0 (x1 - x0) y0 (y1 - y0)

-- `(x1 - x0) as u32`, for coordinates not further apart than 2 ^ 31.
unfoldable pub wlcommon_hline : List ℕ → ℕ → ℕ → ℕ → ℤ → ℤ → ℤ → Color → Option (List ℕ)
wlcommon_hline pixels stride buf_w buf_h y x0 x1 color =
    if ltb_ℤ x0 x1
    then fill_rect pixels stride buf_w buf_h x0 y (pos_part (x1 -ℤ x0)) 1 color
    else some pixels
