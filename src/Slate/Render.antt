-- ===== src/Slate/Render.antt =====
-- What the terminal shows: crates/slate/src/render.rs.
use nullxesos.Prelude.{
  ℕ, suc, ◌+◌, ◌-◌, ◌*◌, ◌/◌, ◌%◌, ◌^◌, Bool, not, ◌&&◌, List, [], ◌∷◌, ◌++◌, max, ◌==◌,
  if◌then◌else◌,
}
use nullxesos.Prelude.Int.{pos}
use nullxesos.Shm.Pixels.{Color}
use nullxesos.Theme.{
  from_hex, with_alpha, surface_1, surface_2, text_primary, accent, destructive, warning, success,
}
use nullxesos.Theme.Text.{mono}
use nullxesos.Paint.{Call, clear_call, rect, horizontal, text_call}

-- The names that the code tells apart; `other_name` is any other.
pub data NamedColor : Type 0 where
  foreground background black red green yellow blue magenta cyan white other_name : NamedColor

pub data AnsiColor : Type 0 where
  named : NamedColor → AnsiColor
  spec : ℕ → ℕ → ℕ → AnsiColor
  indexed : ℕ → AnsiColor

pub record Cell : Type 0 where
  pub c : ℕ
  pub fg : AnsiColor
  pub bg : AnsiColor
  pub underline : Bool

-- What `snapshot_grid` reads, and the cursor's column and line.
pub record Screen : Type 0 where
  pub grid : List (List Cell)
  pub cursor : ℕ × ℕ

abbrev pub empty_screen : Screen
empty_screen = record { grid = []; cursor = (0, 0) }

abbrev pub font_px : ℕ
font_px = 13

abbrev pub cell_w : ℕ
cell_w = 8

abbrev pub cell_h : ℕ
cell_h = 18

abbrev pub padding : ℕ
padding = 8

-- `max(1) as u16`
unfoldable pub cell_grid_for_window : ℕ → ℕ → ℕ × ℕ
cell_grid_for_window window_w window_h = (
  max ((window_w - 2 * padding) / cell_w) 1 % 2 ^ 16,
  max ((window_h - 2 * padding) / cell_h) 1 % 2 ^ 16,
)

-- 0x4B7BC9, 0xA557C9 and 0x4CC0C9 are the colours that the theme does not have.
unfoldable pub ansi_fg : Cell → Color
ansi_fg cell = elim cell.fg [
  | named foreground ↦ text_primary
  | named background ↦ surface_2
  | named black ↦ surface_1
  | named red ↦ destructive
  | named green ↦ success
  | named yellow ↦ warning
  | named blue ↦ from_hex 4946889
  | named magenta ↦ from_hex 10835913
  | named cyan ↦ from_hex 5030089
  | named white ↦ text_primary
  | named other_name ↦ text_primary
  | spec r g b ↦ record { r = r; g = g; b = b; a = 255 }
  | indexed i ↦ text_primary
]

unfoldable pub ansi_bg : Cell → Color
ansi_bg cell = elim cell.bg [
  | named background ↦ surface_2
  | named black ↦ surface_1
  | spec r g b ↦ record { r = r; g = g; b = b; a = 255 }
  | _ ↦ surface_2
]

-- The pixel where a column or a row begins.
abbrev pub cell_x : ℕ → ℕ
cell_x col = padding + col * cell_w

abbrev pub cell_y : ℕ → ℕ
cell_y row = padding + row * cell_h

abbrev pub baseline_offset : ℕ
baseline_offset = cell_h * 3 / 4

module _ (is_control : ℕ → Bool) where
  abbrev pub glyph : ℕ → ℕ → Cell → List Call
  glyph x y cell =
      if not (is_control cell.c) && not (cell.c == 32)
      then text_call (pos x) (pos (y + baseline_offset)) (cell.c ∷ []) font_px (ansi_fg cell) mono
        ∷ []
      else []

  abbrev pub underlined : ℕ → ℕ → Cell → List Call
  underlined x y cell =
      if cell.underline
      then horizontal (pos (y + baseline_offset + 2)) (pos x) (pos (x + cell_w)) (ansi_fg cell) ∷ []
      else []

  abbrev pub paint_cell : ℕ → ℕ → Cell → List Call
  paint_cell x y cell =
      rect (pos x) (pos y) cell_w cell_h (ansi_bg cell) ∷ (glyph x y cell ++ underlined x y cell)

  unfoldable pub paint_row : ℕ → ℕ → List Cell → List Call
  paint_row row col [] = []
  paint_row row col (cell ∷ cells) =
      paint_cell (cell_x col) (cell_y row) cell ++ paint_row row (suc col) cells

  unfoldable pub paint_rows : ℕ → List (List Cell) → List Call
  paint_rows row [] = []
  paint_rows row (cells ∷ rows) = paint_row row 0 cells ++ paint_rows (suc row) rows

  abbrev pub cursor_block : ℕ × ℕ → Bool → List Call
  cursor_block (col, row) blink =
      if blink
      then rect (pos (cell_x col)) (pos (cell_y row)) cell_w cell_h (with_alpha accent 127) ∷ []
      else []

  -- `blink` is `blink_phase > 0.5`.
  unfoldable pub paint : Bool → List (List Cell) → ℕ × ℕ → Bool → List Call
  paint text_loaded grid cursor blink =
      let body = paint_rows 0 grid ++ cursor_block cursor blink in
      clear_call surface_2 ∷ (if text_loaded then body else [])
