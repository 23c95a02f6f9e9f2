-- ===== src/Shm/Pixels.antt =====
-- The pixel helpers of crates/wlcommon/src/shm.rs. A colour is its four bytes; `none` stands for the
-- panic of an index out of range.
pub mod Bounds
pub mod Writes
pub mod Rows
pub mod Effect
use nullxesos.Prelude.{
  ℕ, zero, suc, ◌+◌, ◌-◌, ◌*◌, ◌/◌, ◌%◌, ◌^◌, Bool, true, false, ◌||◌, Option, none, some, List, [],
  ◌∷◌, length, ltb, leb, ◌==◌, if◌then◌else◌, set, get_elem?,
}
use nullxesos.Prelude.Int.{ℤ, pos, negsuc, ◌+ℤ◌, ◌-ℤ◌, pos_part, ltb_ℤ, min_ℤ, max_ℤ}

pub record Color : Type 0 where
  pub r : ℕ
  pub g : ℕ
  pub b : ℕ
  pub a : ℕ

-- `w as i32` of a `u32`, and `i32::saturating_add`.
abbrev pub as_i32 : ℕ → ℤ
as_i32 w = let v = w % 2 ^ 32 in if ltb v (2 ^ 31) then pos v else negsuc (2 ^ 32 - 1 - v)

unfoldable pub saturating_add : ℤ → ℤ → ℤ
unfolding ◌+ℤ◌
saturating_add a b = max_ℤ (negsuc (2 ^ 31 - 1)) (min_ℤ (a +ℤ b) (pos (2 ^ 31 - 1)))

-- One byte of a colour over one byte of the buffer.
abbrev pub blend : ℕ → ℕ → ℕ → ℕ
blend a old c = if a == 255 then c else ((old * (255 - a) + c * a) / 255) % 256

abbrev pub byte_or_0 : Option ℕ → ℕ
byte_or_0 none = 0
byte_or_0 (some c) = c

-- The four writes of one pixel, in the order of the memory.
unfoldable pub put_pixel : List ℕ → ℕ → ℕ → ℕ → ℕ → ℕ → Option (List ℕ)
put_pixel pixels i b g r a =
    if ltb (i + 3) (length pixels)
    then some (set (set (set (set pixels i b) (i + 1) g) (i + 2) r) (i + 3) a)
    else none

-- Four bytes at a time; what is left over, fewer than four, stays.
unfoldable pub clear : Color → List ℕ → List ℕ
clear c (p ∷ q ∷ s ∷ t ∷ pixels) = c.b ∷ c.g ∷ c.r ∷ c.a ∷ clear c pixels
clear c pixels = pixels

-- The four bytes of a pixel.
unfoldable pub paint_pixel : Color → List ℕ → ℕ → Option (List ℕ)
paint_pixel c pixels i =
    if ltb (i + 3) (length pixels)
    then some (
        set
          (set
            (set (set pixels i (blend c.a (byte_or_0 (get_elem? pixels i)) c.b)) (i + 1)
              (blend c.a (byte_or_0 (get_elem? pixels (i + 1))) c.g))
            (i + 2) (blend c.a (byte_or_0 (get_elem? pixels (i + 2))) c.r))
          (i + 3) 255)
    else none

-- `for px in px..px + n`
unfoldable pub fill_row : Color → List ℕ → ℕ → ℕ → ℕ → Option (List ℕ)
fill_row c pixels row px zero = some pixels
fill_row c pixels row px (suc n) = elim (paint_pixel c pixels (row + px * 4)) [
  | none ↦ none
  | some painted ↦ fill_row c painted row (px + 1) n
]

-- `for py in py..py + n`
unfoldable pub fill_rows : Color → List ℕ → ℕ → ℕ → ℕ → ℕ → ℕ → Option (List ℕ)
fill_rows c pixels stride x0 cols py zero = some pixels
fill_rows c pixels stride x0 cols py (suc n) = elim (fill_row c pixels (py * stride) x0 cols) [
  | none ↦ none
  | some filled ↦ fill_rows c filled stride x0 cols (py + 1) n
]

-- The far edge: clipped to the buffer, and not negative.
abbrev pub far_edge : ℤ → ℕ → ℕ → ℕ
far_edge x w buf = pos_part (max_ℤ (min_ℤ (saturating_add x (as_i32 w)) (as_i32 buf)) (pos 0))

unfoldable pub fill_rect : List ℕ → ℕ → ℕ → ℕ → ℤ → ℤ → ℕ → ℕ → Color → Option (List ℕ)
fill_rect pixels stride buf_w buf_h x y w h c =
    let x0 = pos_part (max_ℤ x (pos 0)) in
    let y0 = pos_part (max_ℤ y (pos 0)) in
    let x1 = far_edge x w buf_w in
    let y1 = far_edge y h buf_h in
    let filled = fill_rows c pixels stride x0 (x1 - x0) y0 (y1 - y0) in
    if leb x1 x0 || leb y1 y0 then some pixels else filled

-- `x1 - x0` overflows an `i32` only for coordinates further apart than 2 ^ 31; it is a `u32` then.
abbrev pub span : ℤ → ℤ → ℕ
span x0 x1 = pos_part (x1 -ℤ x0)

unfoldable pub hline : List ℕ → ℕ → ℕ → ℕ → ℤ → ℤ → ℤ → Color → Option (List ℕ)
hline pixels stride buf_w buf_h y x0 x1 c =
    let line = fill_rect pixels stride buf_w buf_h x0 y (span x0 x1) 1 c in
    if ltb_ℤ x0 x1 then line else some pixels

unfoldable pub vline : List ℕ → ℕ → ℕ → ℕ → ℤ → ℤ → ℤ → Color → Option (List ℕ)
vline pixels stride buf_w buf_h x y0 y1 c =
    let line = fill_rect pixels stride buf_w buf_h x y0 1 (span y0 y1) c in
    if ltb_ℤ y0 y1 then line else some pixels
