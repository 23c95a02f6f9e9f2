-- ===== src/Frame/Panel/Modules.antt =====
-- The modules of the panel: crates/frame/src/panel/modules/. A text is a list of characters by their
-- numbers; `none` stands for a panic.
use nullxesos.Prelude.{
  ℕ, zero, suc, ◌+◌, ◌-◌, ◌*◌, ◌/◌, ◌%◌, Bool, true, false, ◌&&◌, Option, none, some, List, [], ◌∷◌,
  ◌++◌, any, ltb, leb, ◌==◌, if◌then◌else◌, ◌>>=◌,
}
use nullxesos.Prelude.Int.{ℤ, pos, ◌+ℤ◌, ◌-ℤ◌, pos_part, neg_part}
use nullxesos.Prelude.Text.{codes, decimal, two_digits}
use nullxesos.Shm.Pixels.{Color, as_i32}
use nullxesos.Theme.{accent, text_secondary, text_disabled}
use nullxesos.Theme.Text.{FontVariant, regular, Glyph, Extent, Canvas, draw_text, measure_text}
use nullxesos.Paint.{half}
use nullxesos.Frame.Panel.Pixels.{fill_rect}

pub data NetworkKind : Type 0 where
  no_network wired wireless other_network : NetworkKind

pub record NetworkSnapshot : Type 0 where
  pub kind : NetworkKind
  pub connected : Bool
  pub ssid : Option (List ℕ)
  pub strength : Option ℕ

pub record ModuleSnapshot : Type 0 where
  pub battery_pct : Option ℕ
  pub on_ac : Bool
  pub network : NetworkSnapshot
  pub volume_pct : Option ℕ
  pub volume_mute : Bool

-- `-r..=r`, as its numbers from the first on.
unfoldable pub offsets : ℕ → ℕ → ℕ → List ℤ
offsets r i zero = []
offsets r i (suc n) = (pos i -ℤ pos r) ∷ offsets r (suc i) n

abbrev pub square : ℤ → ℕ
square v = (pos_part v + neg_part v) * (pos_part v + neg_part v)

-- The tests of the two loops, on the square of the distance.
abbrev pub in_disc : ℕ → ℕ → Bool
in_disc r d2 = leb d2 (r * r)

abbrev pub in_ring : ℕ → ℕ → Bool
in_ring r d2 = leb d2 (r * r) && ltb ((r - 1) * (r - 1)) d2

module _ (f : Extent) (cx cy : ℤ) (c : Color) (inside : ℕ → Bool) where
  unfoldable pub dots_in_row : ℤ → List ℤ → List ℕ → Option (List ℕ)
  dots_in_row dy [] pixels = some pixels
  dots_in_row dy (dx ∷ dxs) pixels =
      (if inside (square dx + square dy)
        then fill_rect pixels f.stride f.buf_w f.buf_h (cx +ℤ dx) (cy +ℤ dy) 1 1 c
        else some pixels)
      >>= λ next. dots_in_row dy dxs next

  unfoldable pub dots : List ℤ → List ℤ → List ℕ → Option (List ℕ)
  dots [] dxs pixels = some pixels
  dots (dy ∷ dys) dxs pixels = dots_in_row dy dxs pixels >>= λ next. dots dys dxs next

unfoldable pub fill_circle : Extent → ℤ → ℤ → ℕ → Color → List ℕ → Option (List ℕ)
fill_circle f cx cy r c pixels =
    dots f cx cy c (in_disc r) (offsets r 0 (2 * r + 1)) (offsets r 0 (2 * r + 1)) pixels

unfoldable pub ring_circle : Extent → ℤ → ℤ → ℕ → Color → List ℕ → Option (List ℕ)
ring_circle f cx cy r c pixels =
    dots f cx cy c (in_ring r) (offsets r 0 (2 * r + 1)) (offsets r 0 (2 * r + 1)) pixels

-- The dot of one workspace: `cx` is START_X + i * (DOT_IDLE + DOT_GAP) + DOT_IDLE / 2.
unfoldable pub dot : Extent → ℕ → List ℕ → ℕ → List ℕ → Option (List ℕ)
dot f active occupied i pixels =
    let cx = pos (60 + i * 16 + 3) in
    let cy = half (as_i32 f.buf_h) in
    if i == active
    then fill_circle f cx cy 4 accent pixels
    else if any (λ o. o == i) occupied
    then ring_circle f cx cy 3 text_secondary pixels
    else ring_circle f cx cy 2 text_disabled pixels

-- `for i in i..i + n`
unfoldable pub dots_from : Extent → ℕ → List ℕ → ℕ → ℕ → List ℕ → Option (List ℕ)
dots_from f active occupied i zero pixels = some pixels
dots_from f active occupied i (suc n) pixels =
    dot f active occupied i pixels >>= λ next. dots_from f active occupied (suc i) n next

abbrev pub workspaces : Extent → ℕ → List ℕ → List ℕ → Option (List ℕ)
workspaces f active occupied pixels = dots_from f active occupied 0 9 pixels

-- `format_local_hhmm`, of the local hour and minute, or of the seconds since the epoch where the
-- local time cannot be had; these are not negative.
pub data Time : Type 0 where
  local : ℕ → ℕ → Time
  utc : ℕ → Time

unfoldable pub format_local_hhmm : Time → List ℕ
format_local_hhmm (local hh mm) = two_digits hh ++ (58 ∷ two_digits mm)
format_local_hhmm (utc secs) = two_digits (secs / 3600 % 24) ++ (58 ∷ two_digits (secs / 60 % 60))

unfoldable pub battery_label : ModuleSnapshot → Option (List ℕ)
battery_label snap = elim snap.battery_pct [
  | none ↦ none
  | some pct ↦ some (codes (if snap.on_ac then "⚡" else "·") ++ (decimal pct ++ codes "%"))
]

unfoldable pub volume_label : ModuleSnapshot → Option (List ℕ × Color)
volume_label snap = elim snap.volume_pct [
  | none ↦ none
  | some pct ↦
      if snap.volume_mute
      then some (codes "MUTE", text_disabled)
      else some (decimal pct ++ codes "%", text_secondary)
]

-- The bytes of a character in UTF-8, and of a text.
abbrev pub char_len : ℕ → ℕ
char_len c = if ltb c 128 then 1 else if ltb c 2048 then 2 else if ltb c 65536 then 3 else 4

abbrev pub byte_len : List ℕ → ℕ
byte_len [] = 0
byte_len (c ∷ s) = char_len c + byte_len s

-- `&s[..n]`: the characters of the first n bytes; it panics where a character crosses that border.
unfoldable pub slice_to : ℕ → List ℕ → Option (List ℕ)
slice_to zero s = some []
slice_to (suc n) [] = none
slice_to (suc n) (c ∷ s) =
    let rest = slice_to (suc n - char_len c) s in
    if leb (char_len c) (suc n) then (rest >>= λ r. some (c ∷ r)) else none

abbrev pub network_name : NetworkSnapshot → Option (List ℕ)
network_name network = elim network.kind [
  | no_network ↦ none
  | wired ↦ some (codes "ETH")
  | wireless ↦ elim network.ssid [ none ↦ some (codes "WIFI") | some id ↦ some id ]
  | other_network ↦ some (codes "NET")
]

-- A name of more than 16 bytes is cut after 15.
unfoldable pub shorten : List ℕ → Option (List ℕ)
shorten label =
    let cut = slice_to 15 label >>= λ front. some (front ++ codes "…") in
    if ltb 16 (byte_len label) then cut else some label

abbrev pub is_nil : List ℕ → Bool
is_nil [] = true
is_nil (c ∷ s) = false

-- What is drawn of the network, if anything is; `none` is a panic.
unfoldable pub network_label : ModuleSnapshot → Option (Option (List ℕ × Color))
network_label snap = elim (network_name snap.network) [
  | none ↦ some none
  | some name ↦
      let color = if snap.network.connected then text_secondary else text_disabled in
      let cut = shorten name >>= λ label. some (some (label, color)) in
      if is_nil name then some none else cut
]

abbrev pub in_secondary : Option (List ℕ) → Option (List ℕ × Color)
in_secondary none = none
in_secondary (some label) = some (label, text_secondary)

module _ (rasterize : FontVariant → ℕ → ℕ → Glyph) (f : Extent) (baseline : ℤ) where
  -- What all modules end with: the label, its right end at the pen, and its left end.
  unfoldable pub indicator : ℤ → Option (List ℕ × Color) → Canvas → Option (Canvas × ℤ)
  indicator pen_x none canvas = some (canvas, pen_x)
  indicator pen_x (some (label, color)) canvas =
      let measured = measure_text rasterize canvas label 13 regular in
      let x = pen_x -ℤ measured.1 in
      draw_text rasterize f measured.0 x baseline label 13 color regular >>= λ drawn.
      some (drawn.0, x)

  abbrev pub clock : Time → ℤ → Canvas → Option (Canvas × ℤ)
  clock now pen_x canvas = indicator pen_x (some (format_local_hhmm now, text_secondary)) canvas

  abbrev pub battery : ModuleSnapshot → ℤ → Canvas → Option (Canvas × ℤ)
  battery snap pen_x canvas = indicator pen_x (in_secondary (battery_label snap)) canvas

  abbrev pub network : ModuleSnapshot → ℤ → Canvas → Option (Canvas × ℤ)
  network snap pen_x canvas = network_label snap >>= λ label. indicator pen_x label canvas

  abbrev pub volume : ModuleSnapshot → ℤ → Canvas → Option (Canvas × ℤ)
  volume snap pen_x canvas = indicator pen_x (volume_label snap) canvas

  -- Clock, battery, network and volume, from the right.
  unfoldable pub indicators : Time → ModuleSnapshot → ℤ → Canvas → Option Canvas
  indicators now snap pen_x canvas = clock now pen_x canvas >>= λ c.
      battery snap (c.1 -ℤ pos 16) c.0 >>= λ b.
      network snap (b.1 -ℤ pos 16) b.0 >>= λ n. volume snap (n.1 -ℤ pos 16) n.0 >>= λ v. some v.0
