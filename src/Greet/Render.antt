-- ===== src/Greet/Render.antt =====
-- What the greeter shows: crates/nx-greet/src/render.rs. `crop` is what the `f32` arithmetic on the
-- two aspect ratios gives: the size of the part of the picture that is shown.
pub mod Safe
use nullxesos.Prelude.{
  ℕ, zero, suc, ◌+◌, ◌-◌, ◌*◌, ◌/◌, ◌%◌, ◌^◌, Bool, true, false, ◌||◌, Option, none, some, List, [],
  ◌∷◌, ◌++◌, min, replicate, length, ltb, leb, ◌==◌, if◌then◌else◌, set, get_elem?,
}
use nullxesos.Prelude.Int.{ℤ, pos, ◌+ℤ◌, ◌-ℤ◌}
use nullxesos.Prelude.Text.{codes}
use nullxesos.Shm.Pixels.{Color, as_i32, byte_or_0, clear}
use nullxesos.Theme.{
  bg, surface_2, surface_3, divider, text_primary, text_secondary, text_disabled, accent,
  destructive,
}
use nullxesos.Theme.Text.{FontVariant, Glyph, Canvas, regular, medium, Extent}
use nullxesos.Paint.{Call, call_all, rect, horizontal, text_call, half}
use nullxesos.Greet.{FocusedField, username_field, password_field}

-- RGBA, a byte each.
pub record BackgroundImage : Type 0 where
  pub width : ℕ
  pub height : ℕ
  pub pixels : List ℕ

abbrev pub black : Color
black = record { r = 0; g = 0; b = 0; a = 255 }

-- The index is computed in a `u32`.
unfoldable pub sample : BackgroundImage → ℕ → ℕ → Color
sample image x y =
    let sx = min x (image.width - 1) in
    let sy = min y (image.height - 1) in
    let idx = ((sy * image.width + sx) * 4) % 2 ^ 32 in
    if (image.width == 0) || (image.height == 0)
    then black
    else if leb (length image.pixels) (idx + 3)
    then black
    else record {
      r = byte_or_0 (get_elem? image.pixels idx);
      g = byte_or_0 (get_elem? image.pixels (idx + 1));
      b = byte_or_0 (get_elem? image.pixels (idx + 2));
      a = byte_or_0 (get_elem? image.pixels (idx + 3));
    }

-- A pixel that does not fit is passed over.
abbrev pub put_opaque : List ℕ → ℕ → Color → List ℕ
put_opaque pixels idx c =
    if leb (length pixels) (idx + 3)
    then pixels
    else set (set (set (set pixels idx c.b) (idx + 1) c.g) (idx + 2) c.r) (idx + 3) 255

module _ (f : Extent) (image : BackgroundImage) (crop_w crop_h : ℕ) where
  abbrev pub source : ℕ → ℕ → Color
  source x y =
      sample image ((image.width - crop_w) / 2 + x * crop_w / f.buf_w)
        ((image.height - crop_h) / 2 + y * crop_h / f.buf_h)

  -- `for x in x..x + n`
  unfoldable pub scale_row : List ℕ → ℕ → ℕ → ℕ → List ℕ
  scale_row pixels y x zero = pixels
  scale_row pixels y x (suc n) =
      scale_row (put_opaque pixels (y * f.stride + x * 4) (source x y)) y (suc x) n

  -- `for y in y..y + n`
  unfoldable pub scale_rows : List ℕ → ℕ → ℕ → List ℕ
  scale_rows pixels y zero = pixels
  scale_rows pixels y (suc n) = scale_rows (scale_row pixels y 0 f.buf_w) (suc y) n

unfoldable pub paint_scaled_background :
    (ℕ → ℕ → BackgroundImage → ℕ × ℕ) → Extent → BackgroundImage → List ℕ → List ℕ
paint_scaled_background crop f image pixels =
    let (crop_w, crop_h) = crop f.buf_w f.buf_h image in
    if ((f.buf_w == 0) || (f.buf_h == 0)) || ((image.width == 0) || (image.height == 0))
    then clear bg pixels
    else scale_rows f image crop_w crop_h pixels 0 f.buf_h

unfoldable pub paint_background :
    (ℕ → ℕ → BackgroundImage → ℕ × ℕ) → Extent → Option BackgroundImage → List ℕ → List ℕ
paint_background crop f none pixels = clear bg pixels
paint_background crop f (some image) pixels = paint_scaled_background crop f image pixels

abbrev pub is_focused : FocusedField → FocusedField → Bool
is_focused username_field username_field = true
is_focused password_field password_field = true
is_focused _ _ = false

unfoldable pub draw_field : ℤ → ℤ → ℕ → List ℕ → List ℕ → Bool → Bool → List Call
draw_field x y w label value focused pending =
    let bar = if focused then (if pending then text_disabled else accent) else divider in
    text_call x (y -ℤ pos 6) label 11 text_disabled regular
    ∷ rect x y w 36 surface_3
    ∷ horizontal (y +ℤ pos 36) x (x +ℤ pos w) bar
    ∷ text_call (x +ℤ pos 12) (y +ℤ pos 23) value 14
        (if pending then text_disabled else text_primary) regular
    ∷ []

abbrev pub prompt_or : Option (List ℕ) → List ℕ
prompt_or none = codes "Password"
prompt_or (some p) = p

abbrev pub error_line : ℤ → ℤ → Option (List ℕ) → List Call
error_line px py none = []
error_line px py (some e) =
    text_call (px +ℤ pos 24) (py +ℤ pos 320 -ℤ pos 24) e 12 destructive regular ∷ []

-- The texts of the panel, whose corner is given; at most 64 dots stand for the password.
unfoldable pub texts :
    ℤ → ℤ → List ℕ → ℕ → Option (List ℕ) → Option (List ℕ) → FocusedField → Bool → List Call
texts px py username password_len prompt error focus pending =
    text_call (px +ℤ pos 24) (py +ℤ pos 36) (codes "NULLXES OS") 18 text_primary medium
    ∷ text_call (px +ℤ pos 24) (py +ℤ pos 80) (codes "Sign in") 14 text_secondary regular
    ∷ (draw_field (px +ℤ pos 24) (py +ℤ pos 100) 432 (codes "Username") username
          (is_focused focus username_field) pending
        ++ (draw_field (px +ℤ pos 24) (py +ℤ pos 170) 432 (prompt_or prompt)
              (replicate (min password_len 64) 8226) (is_focused focus password_field) pending
            ++ error_line px py error))

-- What is drawn over the background.
unfoldable pub paint_panel :
    ℕ → ℕ → Bool → List ℕ → ℕ → Option (List ℕ) → Option (List ℕ) → FocusedField → Bool → List Call
paint_panel buf_w buf_h text_loaded username password_len prompt error focus pending =
    let px = half (as_i32 buf_w -ℤ pos 480) in
    let py = half (as_i32 buf_h -ℤ pos 320) in
    rect px py 480 320 surface_2
    ∷ (if text_loaded then texts px py username password_len prompt error focus pending else [])

-- `paint`: the background, and the panel over it.
unfoldable pub paint :
    (FontVariant → ℕ → ℕ → Glyph)
    → (ℕ → ℕ → BackgroundImage → ℕ × ℕ)
    → Extent
    → Option BackgroundImage
    → List Call
    → Canvas
    → Option Canvas
paint rasterize crop f background panel canvas =
    call_all rasterize f panel
      (record canvas { pixels = paint_background crop f background canvas.pixels })
