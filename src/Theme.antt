-- ===== src/Theme.antt =====
-- The colours of crates/theme/src/color.rs as `to_u8` gives them: through `f32` and back, each of the
-- 256 bytes comes out as it went in.
pub mod Fonts
pub mod Text
use nullxesos.Prelude.{ℕ, ◌/◌, ◌%◌, ◌*◌, ◌+◌}
use nullxesos.Shm.Pixels.{Color}

abbrev pub from_hex : ℕ → Color
from_hex hex = record { r = (hex / 65536) % 256; g = (hex / 256) % 256; b = hex % 256; a = 255 }

-- The byte of the alpha that is given as a fraction.
abbrev pub with_alpha : Color → ℕ → Color
with_alpha c a = record c { a = a }

-- 0x0A0A0A, 0x111111, 0x131313, 0x161616 and 0x1C1C1C.
abbrev pub bg : Color
bg = from_hex 657930

abbrev pub surface_1 : Color
surface_1 = from_hex 1118481

abbrev pub surface_2 : Color
surface_2 = from_hex 1250067

abbrev pub surface_3 : Color
surface_3 = from_hex 1447446

abbrev pub surface_4 : Color
surface_4 = from_hex 1842204

-- 0x252525
abbrev pub divider : Color
divider = from_hex 2434341

-- 0xE8E8E8, 0x808080 and 0x404040.
abbrev pub text_primary : Color
text_primary = from_hex 15263976

abbrev pub text_secondary : Color
text_secondary = from_hex 8421504

abbrev pub text_disabled : Color
text_disabled = from_hex 4210752

-- 0xC0C0C0
abbrev pub accent : Color
accent = from_hex 12632256

-- 0xC0392B, 0xB07D00 and 0x2E7D52.
abbrev pub destructive : Color
destructive = from_hex 12597547

abbrev pub warning : Color
warning = from_hex 11566336

abbrev pub success : Color
success = from_hex 3046738

-- 0.75 and 0.15 of 255, cut off.
abbrev pub selection_bg : Color
selection_bg = record { r = 191; g = 191; b = 191; a = 38 }
