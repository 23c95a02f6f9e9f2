-- ===== src/Shm/Tests.antt =====
-- Runs of the drawing helpers.
use nullxesos.Prelude.{
  List, ◌&&◌, if◌then◌else◌, ◌*◌, ◌+◌, ℕ, ◌≡◌, Bool, false, some, [], ◌∷◌, arith, length, replicate,
}
use nullxesos.Prelude.Int.{pos, negsuc}
use nullxesos.Shm.{Buffer, ShmDoubleBuffer}
use nullxesos.Shm.Pixels.{Color, fill_rect}
use nullxesos.Shm.Pixels.Writes.{byte_at, painted}
use nullxesos.Shm.Pixels.Effect.{covers, fill_rect_lem}

abbrev buffer : ℕ → Bool → Buffer
buffer n released = record { number = n; bytes = 16; released = released; w = 2; h = 2 }

abbrev two : ShmDoubleBuffer
two = record { buffers = buffer 0 false ∷ buffer 1 false ∷ []; w = 2; h = 2; next = 2 }

-- A rectangle that starts left of the buffer and ends below it, at the pixel of its last corner there.
abbrev glass : Color
glass = record { r = 9; g = 8; b = 7; a = 128 }

fill_rect_lem_example :
    (after : List ℕ) × (fill_rect (replicate 16 0) 8 2 2 (negsuc 0) (pos 1) 2 9 glass ≡ some after)
    × (length after ≡ 16)
    × (byte_at after (1 * 8 + (0 * 4 + 2)) ≡ (
        if covers (negsuc 0) 2 0 && covers (pos 1) 9 1
        then painted glass (byte_at (replicate 16 0) (1 * 8 + (0 * 4 + 2))) 2
        else byte_at (replicate 16 0) (1 * 8 + (0 * 4 + 2))))
fill_rect_lem_example =
    fill_rect_lem (replicate 16 0) 8 2 2 (negsuc 0) (pos 1) 2 9 glass 0 1 2 (omega arith)
      (omega arith) (omega arith) (omega arith) (omega arith) (omega arith) (omega arith)
      (omega arith) (omega arith)
