-- ===== src/Lock/Render.antt =====
-- What the lock screen shows: crates/nx-lock/src/render.rs.
use nullxesos.Prelude.{
  ℕ, zero, suc, ◌+◌, ◌*◌, Bool, List, [], ◌∷◌, ◌++◌, replicate, min, ◌/◌, ◌-◌, ltb, leb, ◌==◌,
  if◌then◌else◌,
}
use nullxesos.Prelude.Int.{ℤ, pos, ◌+ℤ◌, ◌-ℤ◌, pos_part, neg_part}
use nullxesos.Prelude.Text.{codes, decimal}
use nullxesos.Shm.Pixels.{Color, as_i32}
use nullxesos.Theme.{
  bg, surface_2, surface_3, surface_4, divider, text_primary, text_disabled, accent, destructive,
}
use nullxesos.Theme.Text.{regular, medium}
use nullxesos.Paint.{Call, clear_call, rect, horizontal, text_call, centred, half}

abbrev pub panel_w : ℕ
panel_w = 420

abbrev pub panel_h : ℕ
panel_h = 240

abbrev pub square : ℤ → ℕ
square v = (pos_part v + neg_part v) * (pos_part v + neg_part v)

-- `for dx in -r..=r`, from the i-th one on.
unfoldable pub dots_in_row : ℤ → ℤ → ℕ → Color → ℤ → ℕ → ℕ → List Call
dots_in_row cx cy r c dy i zero = []
dots_in_row cx cy r c dy i (suc n) =
    let dx = pos i -ℤ pos r in
    let rest = dots_in_row cx cy r c dy (suc i) n in
    if leb (square dx + square dy) (r * r) then rect (cx +ℤ dx) (cy +ℤ dy) 1 1 c ∷ rest else rest

-- `for dy in -r..=r`, from the i-th one on.
unfoldable pub dots : ℤ → ℤ → ℕ → Color → ℕ → ℕ → List Call
dots cx cy r c i zero = []
dots cx cy r c i (suc n) =
    dots_in_row cx cy r c (pos i -ℤ pos r) 0 (2 * r + 1) ++ dots cx cy r c (suc i) n

abbrev pub disc : ℤ → ℤ → ℕ → Color → List Call
disc cx cy r c = dots cx cy r c 0 (2 * r + 1)

-- "•", as often as asked for, and at most so many times.
abbrev pub mask : ℕ → ℕ → List ℕ
mask password_len most = replicate (min password_len most) 8226

unfoldable pub failure_label : ℕ → List ℕ
failure_label fail_count =
    if fail_count == 1
    then codes "Incorrect password"
    else decimal fail_count ++ codes " failed attempts"

abbrev pub failures : ℤ → ℤ → ℕ → List Call
failures cx py fail_count =
    if ltb 0 fail_count
    then centred cx (py +ℤ pos panel_h -ℤ pos 24) (failure_label fail_count) 12 destructive regular
      ∷ []
    else []

-- The name, the mask and the failures.
unfoldable pub texts : ℤ → ℤ → List ℕ → ℕ → ℕ → Bool → List Call
texts px py username password_len fail_count pending =
    let cx = px +ℤ pos (panel_w / 2) in
    centred cx (py +ℤ pos 110) username 14 text_primary medium
    ∷ text_call (px +ℤ pos 44) (py +ℤ pos 153) (mask password_len 32) 14
        (if pending then text_disabled else text_primary) regular
    ∷ failures cx py fail_count

-- The field lies at 32 and 130 from the corner of the panel, and is 36 high.
unfoldable pub shapes : ℤ → ℤ → Bool → List Call
shapes px py pending =
    let field_x = px +ℤ pos 32 in
    let field_y = py +ℤ pos 130 in
    let field_w = panel_w - 64 in
    let cx = px +ℤ pos (panel_w / 2) in
    let cy = py +ℤ pos 56 in
    rect px py panel_w panel_h surface_2
    ∷ horizontal py px (px +ℤ pos panel_w) divider
    ∷ horizontal (py +ℤ pos panel_h -ℤ pos 1) px (px +ℤ pos panel_w) divider
    ∷ (disc cx cy 28 surface_4
        ++ (disc cx cy 8 accent
            ++ (rect field_x field_y field_w 36 surface_3
                ∷ horizontal (field_y +ℤ pos 36) field_x (field_x +ℤ pos field_w)
                    (if pending then text_disabled else accent)
                ∷ [])))

abbrev pub corner : ℕ → ℕ → ℤ
corner buf size = half (as_i32 buf -ℤ pos size)

unfoldable pub paint : ℕ → ℕ → Bool → List ℕ → ℕ → ℕ → Bool → List Call
paint buf_w buf_h text_loaded username password_len fail_count pending =
    let px = corner buf_w panel_w in
    let py = corner buf_h panel_h in
    clear_call bg
    ∷ (shapes px py pending
        ++ (if text_loaded then texts px py username password_len fail_count pending else []))
