-- ===== src/Prelude/Int.antt =====
-- Signed integers over the native numbers, under the library's names.
use Prim.Native.Nat.{ℕ, suc, ◌+◌, ◌-◌, ◌%◌, ◌<◌}
use mathlib.Core.Path.{◌≡◌, ap, ◌∙◌}
use native.Mathlib.Omega.{arith}
use mathlib.Core.Bool.{Bool}
use nullxesos.Prelude.Tests.{ltb, leb, if◌then◌else◌}

-- `negsuc n` is -(n + 1).
pub data ℤ : Type 0 where
  pos : ℕ → ℤ
  negsuc : ℕ → ℤ

abbrev pub pos_part : ℤ → ℕ
pos_part (pos n) = n
pos_part (negsuc n) = 0

abbrev pub neg_part : ℤ → ℕ
neg_part (pos n) = 0
neg_part (negsuc n) = suc n

-- a - b, as an integer.
abbrev pub sub_ℕ : ℕ → ℕ → ℤ
sub_ℕ a b = if leb b a then pos (a - b) else negsuc (b - a - 1)

infixl 65 ◌+ℤ◌ ◌-ℤ◌
unfoldable pub ◌+ℤ◌ : ℤ → ℤ → ℤ
a +ℤ b = sub_ℕ (pos_part a + pos_part b) (neg_part a + neg_part b)

unfoldable pub ◌-ℤ◌ : ℤ → ℤ → ℤ
a -ℤ b = sub_ℕ (pos_part a + neg_part b) (neg_part a + pos_part b)

abbrev pub ltb_ℤ : ℤ → ℤ → Bool
ltb_ℤ a b = ltb (pos_part a + neg_part b) (pos_part b + neg_part a)

abbrev pub min_ℤ : ℤ → ℤ → ℤ
min_ℤ a b = if ltb_ℤ b a then b else a

abbrev pub max_ℤ : ℤ → ℤ → ℤ
max_ℤ a b = if ltb_ℤ a b then b else a

-- Numbers of 32 bits with a sign, by their residue: the arithmetic of an `i32` where overflow wraps, as
-- in the release profile.
unfoldable pub to_u32 : ℤ → ℕ
to_u32 (pos n) = n % 4294967296
to_u32 (negsuc n) = 4294967295 - n % 4294967296

unfoldable pub of_u32 : ℕ → ℤ
of_u32 u = if ltb u 2147483648 then pos u else negsuc (4294967295 - u)

unfoldable pub add_i32 : ℤ → ℤ → ℤ
unfolding to_u32 of_u32
add_i32 a b = of_u32 ((to_u32 a + to_u32 b) % 4294967296)

unfoldable pub sub_i32 : ℤ → ℤ → ℤ
unfolding to_u32 of_u32
sub_i32 a b = of_u32 ((to_u32 a + (4294967296 - to_u32 b)) % 4294967296)

pub to_u32-lt : (a : ℤ) → to_u32 a < 4294967296
unfolding to_u32
to_u32-lt (pos n) = omega arith
to_u32-lt (negsuc n) = omega arith

pub to_u32-of_u32 : (u : ℕ) → u < 4294967296 → to_u32 (of_u32 u) ≡ u
unfolding to_u32 of_u32
to_u32-of_u32 u h = ground (arith, h)

pub to_u32-add_i32 : (a b : ℤ) → to_u32 (add_i32 a b) ≡ (to_u32 a + to_u32 b) % 4294967296
unfolding add_i32
to_u32-add_i32 a b = to_u32-of_u32 ((to_u32 a + to_u32 b) % 4294967296) (omega arith)

-- A number in the range of an `i32`.
abbrev pub IsI32 : ℤ → Type 0
IsI32 a = of_u32 (to_u32 a) ≡ a

pub add_i32-IsI32 : (a b : ℤ) → IsI32 (add_i32 a b)
unfolding add_i32
add_i32-IsI32 a b = ap of_u32 (to_u32-of_u32 ((to_u32 a + to_u32 b) % 4294967296) (omega arith))

-- What is added comes back by subtraction.
pub sub_i32_lem :
    (a b c : ℤ) → IsI32 c → to_u32 a ≡ (to_u32 b + to_u32 c) % 4294967296 → sub_i32 a b ≡ c
unfolding sub_i32
sub_i32_lem a b c i e =
    let back : (to_u32 a + (4294967296 - to_u32 b)) % 4294967296 ≡ to_u32 c =
      omega (arith, e, to_u32-lt a, to_u32-lt b, to_u32-lt c) in
    ap of_u32 back ∙ i
