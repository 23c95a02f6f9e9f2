-- ===== src/Notif/Render.antt =====
-- What a toast shows: crates/nx-notif/src/render.rs.
use nullxesos.Prelude.{ℕ, Bool, List, [], ◌∷◌, ◌++◌, take, any, ◌==◌, if◌then◌else◌}
use nullxesos.Prelude.Int.{pos}
use nullxesos.Prelude.Text.{codes}
use nullxesos.Shm.Pixels.{Color, as_i32}
use nullxesos.Theme.{surface_3, text_primary, text_secondary, text_disabled, accent, destructive}
use nullxesos.Theme.Text.{regular, medium}
use nullxesos.Paint.{Call, clear_call, vertical, text_call}
use nullxesos.Notif.{Urgency, low, normal, critical, Notif}

unfoldable pub accent_for : Urgency → Color
accent_for low = text_disabled
accent_for normal = accent
accent_for critical = destructive

-- The first of `lines`: up to a line feed, 10, without the carriage return, 13, before it.
abbrev pub without_cr : List ℕ → List ℕ
without_cr [] = []
without_cr (c ∷ []) = if c == 13 then [] else c ∷ []
without_cr (c ∷ d ∷ s) = c ∷ without_cr (d ∷ s)

abbrev pub before_lf : List ℕ → List ℕ
before_lf [] = []
before_lf (c ∷ s) = let rest = before_lf s in if c == 10 then [] else c ∷ rest

-- A carriage return that no line feed follows stays.
unfoldable pub first_line : List ℕ → List ℕ
first_line s = if any (λ c. c == 10) s then without_cr (before_lf s) else s

-- A text that is not empty, with its place, size and colour.
abbrev pub line_at : ℕ → ℕ → Color → List ℕ → List Call
line_at y px c [] = []
line_at y px c (d ∷ s) = text_call (pos 18) (pos y) (d ∷ s) px c regular ∷ []

unfoldable pub paint : ℕ → Bool → Notif → List Call
paint buf_h text_loaded notif =
    let texts =
      text_call (pos 18) (pos 24) (codes notif.summary) 14 text_primary medium
      ∷ (line_at 48 12 text_secondary (take 70 (first_line (codes notif.body)))
          ++ line_at 72 11 text_disabled (codes notif.app_name)) in
    clear_call surface_3
    ∷ vertical (pos 0) (pos 0) (as_i32 buf_h) (accent_for notif.urgency)
    ∷ (if text_loaded then texts else [])
