-- ===== src/Greet/Render/Safe.antt =====
-- The greeter is drawn without a panic.
use nullxesos.Prelude.{
  ℕ, zero, suc, ◌+◌, ◌*◌, ◌≡◌, refl, sym, subst, ◌∙◌, ◌||◌, Option, none, some, List, arith, length,
  length-set, leb, ◌==◌, if_lem, Bool-cases, inl, inr,
}
use nullxesos.Shm.Pixels.{Color}
use nullxesos.Shm.Pixels.Bounds.{length-clear}
use nullxesos.Theme.{bg}
use nullxesos.Theme.Text.{FontVariant, Glyph, Extent, Canvas}
use nullxesos.Theme.Text.Bounds.{Fits, IsBitmap}
use nullxesos.Theme.Text.Cached.{IsCoherent}
use nullxesos.Paint.{Call}
use nullxesos.Paint.Safe.{Leaves, call_all_lem}
use nullxesos.Greet.Render.{
  BackgroundImage, put_opaque, source, scale_row, scale_rows, paint_scaled_background,
  paint_background, paint,
}

put_opaque-length :
    (pixels : List ℕ) (idx : ℕ) (c : Color) → length (put_opaque pixels idx c) ≡ length pixels
put_opaque-length pixels idx c = elim (Bool-cases (leb (length pixels) (idx + 3))) [
  | inl e ↦ grind (arith, length-set)
  | inr e ↦ grind (arith, length-set)
]

module _ (f : Extent) (image : BackgroundImage) (crop_w crop_h : ℕ) where
  scale_row-length :
      (pixels : List ℕ) (y x n : ℕ)
      → length (scale_row f image crop_w crop_h pixels y x n) ≡ length pixels
  unfolding scale_row
  scale_row-length pixels y x zero = refl
  scale_row-length pixels y x (suc n) =
      let c : Color = source f image crop_w crop_h x y in
      scale_row-length (put_opaque pixels (y * f.stride + x * 4) c) y (suc x) n
      ∙ put_opaque-length pixels (y * f.stride + x * 4) c

  scale_rows-length :
      (pixels : List ℕ) (y n : ℕ)
      → length (scale_rows f image crop_w crop_h pixels y n) ≡ length pixels
  unfolding scale_rows
  scale_rows-length pixels y zero = refl
  scale_rows-length pixels y (suc n) =
      scale_rows-length (scale_row f image crop_w crop_h pixels y 0 f.buf_w) (suc y) n
      ∙ scale_row-length pixels y 0 f.buf_w

paint_background-length :
    (crop : ℕ → ℕ → BackgroundImage → ℕ × ℕ) (f : Extent) (image : Option BackgroundImage)
    (pixels : List ℕ)
    → length (paint_background crop f image pixels) ≡ length pixels
unfolding paint_background paint_scaled_background
paint_background-length crop f none pixels = length-clear bg pixels
paint_background-length crop f (some image) pixels =
    if_lem (λ (p : List ℕ). length p ≡ length pixels)
      (((f.buf_w == 0) || (f.buf_h == 0)) || ((image.width == 0) || (image.height == 0)))
      (length-clear bg pixels)
      (scale_rows-length f image (crop f.buf_w f.buf_h image).0 (crop f.buf_w f.buf_h image).1
        pixels 0 f.buf_h)

-- Whatever picture lies behind, of any size and with any bytes, and whatever is drawn over it: in a
-- buffer of `buf_h` rows that each hold `buf_w` pixels the greeter is drawn without a panic,
-- when the rasterizer gives whole bitmaps and the cache holds what it gave; the buffer keeps its
-- length, and the cache stays such.
pub paint_lem :
    (rasterize : FontVariant → ℕ → ℕ → Glyph)
    (whole : (v : FontVariant) (ch px : ℕ) → IsBitmap (rasterize v ch px))
    (crop : ℕ → ℕ → BackgroundImage → ℕ × ℕ) (f : Extent) (background : Option BackgroundImage)
    (panel : List Call) (canvas : Canvas)
    → IsCoherent rasterize canvas.cache
    → Fits f (length canvas.pixels)
    → Leaves rasterize (length canvas.pixels) (paint rasterize crop f background panel canvas)
unfolding paint
paint_lem rasterize whole crop f background panel canvas all fits =
    let behind : List ℕ = paint_background crop f background canvas.pixels in
    let same : length behind ≡ length canvas.pixels =
      paint_background-length crop f background canvas.pixels in
    subst (λ n. Leaves rasterize n (paint rasterize crop f background panel canvas)) same
      (call_all_lem rasterize whole f panel (record canvas { pixels = behind }) all
        (subst (Fits f) (sym same) fits))
