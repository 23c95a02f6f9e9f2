-- ===== src/Slate/Sizes.antt =====
-- The grid of the shell follows the window.
use nullxesos.Prelude.{
  ℕ, suc, ◌+◌, ◌*◌, ◌≤◌, ◌<◌, ◌≡◌, inl, inr, Option, none, some, arith, Bool-cases,
}
use nullxesos.Shm
use nullxesos.Shm.Pool.{Result-cases}
use nullxesos.Shm.Sizes.{PoolIs}
use nullxesos.Shm.{ShmDoubleBuffer, ok, err, Result, ClientError}
use nullxesos.Slate.Render.{cell_w, cell_h, padding, cell_grid_for_window}
use nullxesos.Slate.{Outside, SlateState, TerminalSession, window_size, Committed, present}

-- The shell was told the grid that the window holds, and the emulation has it.
abbrev pub TermFits : ℕ × ℕ → Option TerminalSession → Type 0
TermFits grid none = Unit
TermFits grid (some t) =
    (t.size ≡ window_size grid.0 grid.1) × (t.columns ≡ grid.0) × (t.lines ≡ grid.1)

-- The pool has the size of the window, and all its buffers have it.
abbrev pub PoolFits : ℕ → ℕ → Option ShmDoubleBuffer → Type 0
PoolFits w h none = Unit
PoolFits w h (some pool) = PoolIs w h pool

-- Both, of a state.
abbrev pub IsSized : SlateState → Type 0
IsSized st =
    TermFits (cell_grid_for_window st.width st.height) st.term
    × PoolFits st.width st.height st.buffer

module _ (o : Outside) where
  pub present_lem :
      (elapsed : ℕ) (st : SlateState) (pool : ShmDoubleBuffer)
      → (c : Option Committed) × (present o elapsed st pool
          ≡ record st { buffer = some (Shm.draw o.memory pool).0; committed = c })
  unfolding present
  present_lem elapsed st pool = elim (Result-cases (Shm.draw o.memory pool).1) [
    | inl (e, bad) ↦ (st.committed, ground (arith, bad))
    | inr (inl none_drawn) ↦ (st.committed, ground (arith, none_drawn))
    | inr (inr (b, drawn)) ↦ elim (Bool-cases st.surface) [
      | inl e ↦ ((present o elapsed st pool).committed, ground (arith, drawn, e))
      | inr e ↦ (st.committed, ground (arith, drawn, e))
    ]
  ]

-- In a window of at least one cell with its padding, and of fewer than 65536 columns and rows: the
-- grid leaves the padding free at both sides, and is the largest one that does.
pub cell_grid_lem :
    (w h : ℕ)
    → 24 ≤ w
    → w < 524304
    → 34 ≤ h
    → h < 1179664
    → let (cols, rows) = cell_grid_for_window w h in
      (cols * cell_w + 2 * padding ≤ w)
      × (w < suc cols * cell_w + 2 * padding)
      × (rows * cell_h + 2 * padding ≤ h)
      × (h < suc rows * cell_h + 2 * padding)
unfolding cell_grid_for_window
cell_grid_lem w h low high low' high' = (ground arith, ground arith, ground arith, ground arith)
