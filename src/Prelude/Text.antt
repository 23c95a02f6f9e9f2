-- ===== src/Prelude/Text.antt =====
-- Texts as lists of characters by their numbers, and the printing of numbers.
use Prim.Native.Char.{code}
use Prim.Native.Nat.{ℕ, zero, suc, ◌+◌, ◌/◌, ◌%◌}
use Prim.Native.String.{String}
use mathlib.Core.Bool.{Bool, true, false, ◌&&◌}
use mathlib.Core.List.{List, [], ◌∷◌, ◌++◌}
use nullxesos.Prelude.Tests.{ltb, ◌==◌, if◌then◌else◌}
use nullxesos.Prelude.Int.{ℤ, pos, negsuc}

abbrev pub codes : String → List ℕ
codes String.[] = []
codes (String.◌∷◌ c s) = code c ∷ codes s

abbrev pub same_text : List ℕ → List ℕ → Bool
same_text [] [] = true
same_text (c ∷ cs) (d ∷ ds) = (c == d) && same_text cs ds
same_text _ _ = false

-- The digits of a number; a number has fewer digits than its size and one.
abbrev pub digits : ℕ → ℕ → List ℕ
digits zero n = []
digits (suc fuel) n =
    let front = digits fuel (n / 10) in
    if ltb n 10 then (48 + n) ∷ [] else front ++ ((48 + n % 10) ∷ [])

unfoldable pub decimal : ℕ → List ℕ
decimal n = digits (suc n) n

unfoldable pub decimal_ℤ : ℤ → List ℕ
unfolding decimal
decimal_ℤ (pos n) = decimal n
decimal_ℤ (negsuc n) = 45 ∷ decimal (suc n)

-- `{:02}`
unfoldable pub two_digits : ℕ → List ℕ
unfolding decimal
two_digits n = if ltb n 10 then 48 ∷ decimal n else decimal n

abbrev pub show_bool : Bool → List ℕ
show_bool true = codes "true"
show_bool false = codes "false"
