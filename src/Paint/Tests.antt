-- ===== src/Paint/Tests.antt =====
-- A frame of a few calls.
use nullxesos.Prelude.{List, [], ◌∷◌, arith}
use nullxesos.Prelude.Int.{pos, negsuc}
use nullxesos.Theme.{bg, accent, text_primary}
use nullxesos.Theme.Text.{regular}
use nullxesos.Theme.Text.Tests.{blocks, blocks-whole, small, canvas}
use nullxesos.Paint.{Call, clear_call, rect, vertical, centred, call_all}
use nullxesos.Paint.Safe.{Leaves, call_all_lem}

-- A rectangle that reaches out of the buffer, and a text around its middle.
abbrev frame : List Call
frame =
    clear_call bg
    ∷ rect (negsuc 1) (pos 1) 9 9 accent
    ∷ vertical (pos 3) (negsuc 5) (pos 7) accent
    ∷ centred (pos 2) (pos 1) (97 ∷ 98 ∷ []) 13 text_primary regular
    ∷ []

frame-Leaves : Leaves blocks 32 (call_all blocks small frame canvas)
frame-Leaves = call_all_lem blocks blocks-whole small frame canvas tt (omega arith, omega arith)
